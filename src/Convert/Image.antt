-- ===== src/Convert/Image.antt =====
-- dockerfile2llb/image.go, and what convert.go does with an image by itself. A map or a slice that is
-- nil is an empty list, which JSON leaves out as well.
use dockerfile.Base.{List, [], ◌∷◌, ◌++◌, Bool, false, not, Option, none, snoc, if◌then◌else◌}
use dockerfile.Base.Text.{Text, codes, text_eq}
use dockerfile.Instructions.Commands.{HealthConfig}
use dockerfile.Convert.Platform.{Platform}
use dockerfile.Convert.Environment.{with_shell}

-- `ImageConfig` with the fields of `ocispecs.ImageConfig` that the code uses
pub record ImageConfig : Type 0 where
  pub user : Text
  pub exposed_ports : List Text
  pub env : List Text
  pub entrypoint : List Text
  pub cmd : List Text
  pub volumes : List Text
  pub working_dir : Text
  pub labels : List (Text × Text)
  pub stop_signal : Text
  pub healthcheck : Option HealthConfig
  pub args_escaped : Bool
  pub on_build : List Text
  pub shell : List Text

-- `ocispecs.History`
pub record History : Type 0 where
  pub created_by : Text
  pub comment : Text
  pub empty_layer : Bool

-- `Image` with the fields of `ocispecs.Image` that the code uses
pub record Image : Type 0 where
  pub author : Text
  pub architecture : Text
  pub os : Text
  pub variant : Text
  pub config : ImageConfig
  pub history : List History

abbrev empty_config : ImageConfig
empty_config = record {
  user = [];
  exposed_ports = [];
  env = [];
  entrypoint = [];
  cmd = [];
  volumes = [];
  working_dir = [];
  labels = [];
  stop_signal = [];
  healthcheck = none;
  args_escaped = false;
  on_build = [];
  shell = [];
}

-- `clone`, on values: what is written to one image is not seen through the other. The code copies the
-- slices Env, Cmd and Entrypoint, and shares the maps Labels, ExposedPorts and Volumes, and the arrays of
-- the slices History and OnBuild.
abbrev pub clone : Image → Image
clone src = src

-- `emptyImage`, with `system.DefaultPathEnv`
unfoldable pub empty_image : (Text → Text) → Platform → Image
empty_image default_path platform = record {
  author = [];
  architecture = platform.architecture;
  os = platform.os;
  variant = platform.variant;
  config = record empty_config {
    working_dir = codes "/";
    env = (codes "PATH=" ++ default_path platform.os) ∷ [];
  };
  history = [];
}

-- `historyComment`
abbrev pub history_comment : Text
history_comment = codes "buildkit.dockerfile.v0"

-- `commitToHistory`; the flag `with_state` tells whether `st` is not nil.
unfoldable pub commit_to_history : Image → Text → Bool → Bool → Image
commit_to_history img msg with_layer with_state = record img {
  history = snoc img.history (record {
    created_by = if with_state then msg ++ codes " # buildkit" else msg;
    comment = history_comment;
    empty_layer = not with_layer;
  });
}

-- `withShell`
abbrev pub in_shell : Image → List Text → List Text
in_shell img args = with_shell img.config.shell img.os args

-- A `map[string]struct{}` as a list of its keys
unfoldable pub insert_key : List Text → Text → List Text
unfolding text_eq
insert_key [] k = k ∷ []
insert_key (j ∷ ks) k = if text_eq j k then j ∷ ks else j ∷ insert_key ks k

unfoldable pub insert_keys : List Text → List Text → List Text
unfolding insert_key
insert_keys ks [] = ks
insert_keys ks (k ∷ more) = insert_keys (insert_key ks k) more
