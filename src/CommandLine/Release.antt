-- ===== src/CommandLine/Release.antt =====
-- The command lines of resources/artifacts.py and of resources/upload_assets.py.
use v_swarm_u.Base.{String, ◌<>◌, false, Option, none, some, List, [], ◌∷◌}
use v_swarm_u.Base.Text.{Text, codes}
use v_swarm_u.CommandLine.{str_option, flag_option, word, switch, Opt, Table, Namespace}
use v_swarm_u.CommandLine.Parser.{parse_args, value_of}
use v_swarm_u.CommandLine.Simulation.{read_by}
use v_swarm_u.CommandLine.Options.{help}
use v_swarm_u.Release.Artifacts.{Args}

-- `os.environ.get('RESOURCES', './')`, for the variable of the environment
abbrev resources_of : Option String → String
resources_of none = "./"
resources_of (some path) = path

-- `f"{os.getenv('RESOURCES')}"`, in which a variable that is not set is the word "None"
abbrev formatted : Option String → String
formatted none = "None"
formatted (some path) = path

abbrev text_option : List String → String → String → Opt
text_option names dest initial = record {
  names = names;
  dest = dest;
  kind = str_option;
  choices = [];
  initial = word initial;
}

abbrev flag_named : List String → String → Opt
flag_named names dest = record {
  names = names;
  dest = dest;
  kind = flag_option;
  choices = [];
  initial = switch false;
}

abbrev pub os_version : Opt
os_version = record {
  names = "--os-version" ∷ "-l" ∷ [];
  dest = "os_version";
  kind = str_option;
  choices = "focal" ∷ "jammy" ∷ [];
  initial = word "focal";
}

abbrev pub arch : Opt
arch = record {
  names = "--arch" ∷ "-a" ∷ [];
  dest = "arch";
  kind = str_option;
  choices = "amd64" ∷ "arm64" ∷ [];
  initial = word "amd64";
}

-- artifacts.py
abbrev pub artifacts_options : Option String → Table
artifacts_options resources =
    help
    ∷ text_option ("--file" ∷ []) "file" (resources_of resources <> "/release.json")
    ∷ flag_named ("--download" ∷ "-d" ∷ []) "download"
    ∷ text_option ("--version" ∷ "-v" ∷ []) "version" "latest"
    ∷ text_option ("--output" ∷ "-o" ∷ []) "output" (resources_of resources <> "/")
    ∷ os_version
    ∷ arch
    ∷ []

-- upload_assets.py
abbrev upload_options : Option String → Table
upload_options resources =
    help
    ∷ text_option ("--kernel" ∷ []) "kernel" (formatted resources <> "/kernel")
    ∷ text_option ("--disk-image" ∷ []) "disk_image" (formatted resources <> "/disk-image")
    ∷ text_option ("--client" ∷ []) "client" (formatted resources <> "/client")
    ∷ text_option ("--upload-url" ∷ []) "upload_url" ""
    ∷ text_option ("--tag-name" ∷ []) "tag_name" ""
    ∷ text_option ("--release-id" ∷ []) "release_id" ""
    ∷ flag_named ("--version" ∷ "-v" ∷ []) "version"
    ∷ []

abbrev word_at : String → Namespace → Option String
word_at dest ns = elim (value_of dest ns) [
  | none ↦ none
  | some v ↦ elim v [ word s ↦ some s | _ ↦ none ]
]

abbrev pub args_from :
    Option String → Option String → Option String → Option String → Option (Args × Text)
args_from (some os) (some machine) (some folder) (some version) =
    some
      (record { os_version = codes os; arch = codes machine; output = codes folder }, codes version)
args_from _ _ _ _ = none

-- What `downloadMoveAssets(args.version)` reads of the namespace.
unfoldable pub download_args : Namespace → Option (Args × Text)
unfolding value_of
download_args ns =
    args_from (word_at "os_version" ns) (word_at "arch" ns) (word_at "output" ns)
      (word_at "version" ns)

unfoldable pub parse_artifacts : Option String → List String → Option (Args × Text)
unfolding parse_args download_args
parse_artifacts resources argv =
    read_by download_args (parse_args (artifacts_options resources) argv)

abbrev pub three : Option String → Option String → Option String → Option (String × String × String)
three (some kernel) (some disk) (some client) = some (kernel, disk, client)
three _ _ _ = none

-- The kernel, the disk image and the client that the main block uploads.
unfoldable upload_paths : Namespace → Option (String × String × String)
unfolding value_of
upload_paths ns = three (word_at "kernel" ns) (word_at "disk_image" ns) (word_at "client" ns)

unfoldable pub parse_upload : Option String → List String → Option (String × String × String)
unfolding parse_args upload_paths
parse_upload resources argv = read_by upload_paths (parse_args (upload_options resources) argv)
