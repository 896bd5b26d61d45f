-- ===== src/Convert/States/Sources.antt =====
-- dockerfile2llb/convert.go: the sources of a command (`toCommand`, and `detectRunMount` of
-- convert_runmount.go), said of the states that are there at the end.
use dockerfile.Base.{
  ℕ, List, [], ◌∷◌, true, Option, none, some, snoc, ◌≡◌, refl, ◌∙◌, ap, All, ◌⊎◌, inl, inr, length,
}
use dockerfile.Base.Text.{Text, codes, to_lower}
use dockerfile.Parser.Error.{Range}
use dockerfile.Instructions.Numbers.{ℤ, pos, negsuc}
use dockerfile.Instructions.Mount.{Mount}
use dockerfile.Instructions.Commands.{Stage, Command, Body}
use dockerfile.Convert.Error.{Result, ok}
use dockerfile.Convert.States.{
  DispatchState, DispatchStates, get_elem?, unregistered_state, state_of_name, or_unregistered,
  find_state_by_name, find_name, or_invalid, mount_sources, mount_from, copy_sources, with_states,
  by_index, atoi, to_command,
}
use dockerfile.Convert.States.Filled.{Ok}
use dockerfile.Convert.States.Later.{
  IsUnnamed, info_of, info_at, Later, Later-refl, state_of_name-Later, mount_sources-Later,
}

-- The state at `p` was made for the image `name`.
abbrev pub IsImage : DispatchStates → Text → ℕ → Type 0
IsImage dss name p = (st : Stage) × (info_at dss p ≡ some (st, true)) × (st.base_name ≡ name)

-- The name, in any case, is that of the stage `p`, or it is no stage's name, and `p` is the image `name`.
abbrev pub Finds : DispatchStates → Text → ℕ → Type 0
Finds dss name p =
    (find_state_by_name dss name ≡ some p)
    ⊎ ((find_state_by_name dss name ≡ none) × IsImage dss name p)

-- The stage with the number, from 0 on
abbrev pub IsPlace : DispatchStates → ℤ → ℕ → Type 0
IsPlace dss (pos i) p = get_elem? dss.states i ≡ some p
IsPlace dss (negsuc i) p = ⊥

abbrev pub Copied : DispatchStates → Text → Option ℤ → ℕ → Type 0
Copied dss from (some i) p = IsPlace dss i p
Copied dss from none p = Finds dss from p

-- COPY has no source, or the one of its flag `from`.
abbrev pub AreCopied : DispatchStates → Text → List ℕ → Type 0
AreCopied dss [] ps = ps ≡ []
AreCopied dss (c ∷ from) ps = (p : ℕ) × (ps ≡ p ∷ []) × Copied dss (c ∷ from) (atoi (c ∷ from)) p

-- The image or the stage that a mount is from
abbrev pub source_name : Text → Text
source_name [] = codes "scratch"
source_name (c ∷ from) = c ∷ from

-- RUN has one source for each mount.
abbrev pub AreMounted : DispatchStates → List Mount → List ℕ → Type 0
AreMounted dss [] [] = Unit
AreMounted dss (m ∷ ms) (p ∷ ps) = Finds dss (source_name m.from) p × AreMounted dss ms ps
AreMounted dss _ _ = ⊥

abbrev pub AreSources : DispatchStates → Body → List ℕ → Type 0
AreSources dss (Body.copy s from chown chmod) ps = AreCopied dss from ps
AreSources dss (Body.run r) ps = AreMounted dss r.mounts ps
AreSources dss _ ps = ps ≡ []

find_state_by_name-Later :
    {a b : DispatchStates}
    → Later a b
    → (name : Text) → find_state_by_name b name ≡ find_state_by_name a name
unfolding find_state_by_name
find_state_by_name-Later l name = ap (λ m. find_name m (to_lower name)) l.names

Finds-Later :
    {a b : DispatchStates} → Later a b → (name : Text) (p : ℕ) → Finds a name p → Finds b name p
Finds-Later l name p (inl e) = inl (find_state_by_name-Later l name ∙ e)
Finds-Later l name p (inr (e, k)) =
    let (st, i, n) = k in inr (find_state_by_name-Later l name ∙ e, (st, l.infos p (st, true) i, n))

Copied-Later :
    {a b : DispatchStates}
    → Later a b
    → (from : Text) (o : Option ℤ) (p : ℕ) → Copied a from o p
    → Copied b from o p
Copied-Later l from (some (pos i)) p e = l.places i p e
Copied-Later l from (some (negsuc i)) p e = elim e [ ]
Copied-Later l from none p f = Finds-Later l from p f

AreCopied-Later :
    {a b : DispatchStates}
    → Later a b
    → (from : Text) (ps : List ℕ) → AreCopied a from ps
    → AreCopied b from ps
AreCopied-Later l [] ps e = e
AreCopied-Later l (c ∷ from) ps (p, e, k) = (p, e, Copied-Later l (c ∷ from) (atoi (c ∷ from)) p k)

AreMounted-Later :
    {a b : DispatchStates}
    → Later a b
    → (ms : List Mount) (ps : List ℕ) → AreMounted a ms ps
    → AreMounted b ms ps
AreMounted-Later l [] [] h = tt
AreMounted-Later l [] (p ∷ ps) h = elim h [ ]
AreMounted-Later l (m ∷ ms) [] h = elim h [ ]
AreMounted-Later l (m ∷ ms) (p ∷ ps) h =
    (Finds-Later l (source_name m.from) p h.0, AreMounted-Later l ms ps h.1)

pub AreSources-Later :
    {a b : DispatchStates}
    → Later a b
    → (c : Body) (ps : List ℕ) → AreSources a c ps
    → AreSources b c ps
AreSources-Later l (Body.copy s from chown chmod) ps h = AreCopied-Later l from ps h
AreSources-Later l (Body.run r) ps h = AreMounted-Later l r.mounts ps h
AreSources-Later l (Body.env kvps) ps h = h
AreSources-Later l _ ps h = h

info-last :
    (xs : List DispatchState) (x : DispatchState)
    → info_of (get_elem? (snoc xs x) (length xs)) ≡ info_of (some x)
unfolding get_elem?
info-last [] x = refl
info-last (y ∷ ys) x = info-last ys x

state_of_name-Finds :
    (dss : DispatchStates) (name : Text) (location : List Range)
    → Finds (state_of_name dss name location).1 name (state_of_name dss name location).0
unfolding state_of_name find_state_by_name
state_of_name-Finds dss name location = by_name (find_state_by_name dss name) refl
  where
    by_name :
        (o : Option ℕ)
        → find_state_by_name dss name ≡ o
        → Finds (or_unregistered dss name location o).1 name (or_unregistered dss name location o).0
    by_name (some p) e = inl e
    by_name none e = inr (
      e,
      (
        (unregistered_state name location).stage,
        info-last dss.heap (unregistered_state name location),
        refl,
      ),
    )

mount_sources-AreMounted :
    (dss : DispatchStates) (ms : List Mount)
    → All IsUnnamed dss.heap
    → AreMounted (mount_sources dss ms).1 ms (mount_sources dss ms).0
unfolding mount_sources
mount_sources-AreMounted dss [] u = tt
mount_sources-AreMounted dss (m ∷ ms) u =
    let name = mount_from m.from in
    let one = state_of_name-Later dss name [] u in
    let next = (state_of_name dss name []).1 in
    (
      Finds-Later (mount_sources-Later next ms one.unnamed) (source_name m.from)
          (state_of_name dss name []).0
          (by_from m.from next (state_of_name dss name []).0 (state_of_name-Finds dss name [])),
      mount_sources-AreMounted next ms one.unnamed,
    )
  where
    by_from :
        (from : Text) (d : DispatchStates) (p : ℕ)
        → Finds d (mount_from from) p
        → Finds d (source_name from) p
    by_from [] d p f = f
    by_from (c ∷ from) d p f = f

-- What `toCommand` does to the states, and what it finds
abbrev pub Looked : DispatchStates → Body → Result (List ℕ × DispatchStates) → Type 0
Looked dss b = Ok (λ (r : List ℕ × DispatchStates). Later dss r.1 × AreSources r.1 b r.0)

copy_sources-Looked :
    (dss : DispatchStates) (from : Text) (location : List Range)
    → All IsUnnamed dss.heap
    → Ok
        (λ (r : List ℕ × DispatchStates). Later dss r.1 × AreCopied r.1 from r.0)
        (copy_sources dss from location)
unfolding copy_sources
copy_sources-Looked dss [] location u = (Later-refl dss u, refl)
copy_sources-Looked dss (c ∷ from) location u = numbered (atoi (c ∷ from)) refl
  where
    found :
        (i : ℕ) (o : Option ℕ)
        → atoi (c ∷ from) ≡ some (pos i)
        → get_elem? dss.states i ≡ o
        → Ok
            (λ (r : List ℕ × DispatchStates). Later dss r.1 × AreCopied r.1 (c ∷ from) r.0)
            (with_states dss (or_invalid (pos i) o))
    found i none e k = tt
    found i (some p) e k = (Later-refl dss u, (p, refl, rw e k))

    numbered :
        (o : Option ℤ)
        → atoi (c ∷ from) ≡ o
        → Ok
            (λ (r : List ℕ × DispatchStates). Later dss r.1 × AreCopied r.1 (c ∷ from) r.0)
            (by_index dss (c ∷ from) location o)
    numbered none e = (
      state_of_name-Later dss (c ∷ from) location u,
      (
        (state_of_name dss (c ∷ from) location).0,
        refl,
        rw e (state_of_name-Finds dss (c ∷ from) location),
      ),
    )
    numbered (some (pos i)) e = found i (get_elem? dss.states i) e refl
    numbered (some (negsuc i)) e = tt

pub to_command-Looked :
    (dss : DispatchStates) (c : Command)
    → All IsUnnamed dss.heap
    → Looked dss c.body (to_command dss c)
unfolding to_command
to_command-Looked dss c u = by_body c.body
  where
    by_body :
        (b : Body)
        → Looked dss b (elim b [
          | Body.copy s from chown chmod ↦ copy_sources dss from c.base.location
          | Body.run r ↦ ok (mount_sources dss r.mounts)
          | _ ↦ ok ([], dss)
        ])
    by_body (Body.copy s from chown chmod) = copy_sources-Looked dss from c.base.location u
    by_body (Body.run r) =
        (mount_sources-Later dss r.mounts u, mount_sources-AreMounted dss r.mounts u)
    by_body (Body.env kvps) = (Later-refl dss u, refl)
    by_body _ = (Later-refl dss u, refl)
