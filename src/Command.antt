-- ===== src/Command.antt =====
-- parser/command: the names of the Dockerfile commands.
use dockerfile.Base.{List, [], ◌∷◌, Option, none, some, if◌then◌else◌}
use dockerfile.Base.Text.{Text, codes, text_eq}

pub data Command : Type 0 where
  add arg cmd copy entrypoint env expose from healthcheck : Command
  label maintainer onbuild run shell stop_signal user volume workdir : Command

-- The value of the constant
unfoldable pub name : Command → Text
name add = codes "add"
name arg = codes "arg"
name cmd = codes "cmd"
name copy = codes "copy"
name entrypoint = codes "entrypoint"
name env = codes "env"
name expose = codes "expose"
name from = codes "from"
name healthcheck = codes "healthcheck"
name label = codes "label"
name maintainer = codes "maintainer"
name onbuild = codes "onbuild"
name run = codes "run"
name shell = codes "shell"
name stop_signal = codes "stopsignal"
name user = codes "user"
name volume = codes "volume"
name workdir = codes "workdir"

-- The map `Commands`
abbrev pub commands : List Command
commands =
    add ∷ arg ∷ cmd ∷ copy ∷ entrypoint ∷ env ∷ expose ∷ from ∷ healthcheck ∷ label ∷ maintainer
    ∷ onbuild ∷ run ∷ shell ∷ stop_signal ∷ user ∷ volume ∷ workdir ∷ []

find_name : Text → List Command → Option Command
find_name s [] = none
find_name s (c ∷ cs) = if text_eq s (name c) then some c else find_name s cs

-- The case that `ParseInstruction` takes for a name in lower case
unfoldable pub of_name : Text → Option Command
unfolding find_name name text_eq
of_name s = find_name s commands
