-- ===== src/Release/Publish/Script.antt =====
-- resources/artifacts.py as a whole, on what resources/upload_assets.py has published.
use v_swarm_u.Base.{
  ◌≡◌, ◌⊎◌, inl, inr, refl, String, true, Option, none, some, List, [], ◌∷◌, arith, Bool-cases,
}
use v_swarm_u.Base.Text.{Text, codes}
use v_swarm_u.CommandLine.Words.{same}
use v_swarm_u.CommandLine.Words.{same-eq}
use v_swarm_u.CommandLine.{Value, word, absent, no_values, Parsed, parsed, exits, one_of}
use v_swarm_u.CommandLine.Parser.{parse_args, value_of, initial_values}
use v_swarm_u.CommandLine.Types.{Returns, parse_args-Returns}
use v_swarm_u.CommandLine.Values.{AllFit, FitsAt, IsTyped-FitsAt}
use v_swarm_u.CommandLine.Simulation.{read_by}
use v_swarm_u.CommandLine.Release.{
  artifacts_options, download_args, parse_artifacts, os_version, args_from,
}
use v_swarm_u.Release.{Release}
use v_swarm_u.Release.Files.{Files}
use v_swarm_u.Release.Upload.{Request, Posted, main}
use v_swarm_u.Release.Artifacts.{
  Args, Response, State, raised, kernel_not_found, kernel_name, download_move_assets,
}
use v_swarm_u.Release.Publish.{published}
use v_swarm_u.Release.Publish.Names.{published-download_move_assets}

some-injective : {s t : String} → some s ≡ some t → s ≡ t
some-injective h = cc h

-- The release of Ubuntu that the script has asked for is one of the two choices.
abbrev IsRelease : Text → Type 0
IsRelease os = (os ≡ codes "focal") ⊎ (os ≡ codes "jammy")

abbrev word_in : Option Value → Option String
word_in v = elim v [ none ↦ none | some w ↦ elim w [ word s ↦ some s | _ ↦ none ] ]

chosen : (s : String) → one_of s ("focal" ∷ "jammy" ∷ []) ≡ true → IsRelease (codes s)
unfolding one_of
chosen s h = elim (Bool-cases (same s "focal")) [
  | inl focal ↦ inl (same-eq s "focal" focal)
  | inr other ↦ inr (same-eq s "jammy" (ground (arith, other, h)))
]

word_in-IsRelease :
    (v : Option Value) (s : String)
    → FitsAt (some os_version) v
    → word_in v ≡ some s
    → IsRelease (codes s)
word_in-IsRelease (some (word t)) s h e = rw (← some-injective e) (chosen t h)
word_in-IsRelease (some absent) s h e = absurd (cc)
word_in-IsRelease (some no_values) s h e = absurd (cc)
word_in-IsRelease _ s h e = absurd h

args_from-os_version :
    (os machine folder version : Option String) (a : Args) (v : Text)
    → args_from os machine folder version ≡ some (a, v)
    → (s : String) × (os ≡ some s) × (codes s ≡ a.os_version)
args_from-os_version (some s) (some machine) (some folder) (some version) a v h = (s, refl, cc h)
args_from-os_version (some s) (some machine) (some folder) none a v h = absurd (cc)
args_from-os_version (some s) (some machine) none version a v h = absurd (cc)
args_from-os_version (some s) none folder version a v h = absurd (cc)
args_from-os_version none machine folder version a v h = absurd (cc)

read-IsRelease :
    (resources : Option String) (p : Parsed) (a : Args) (v : Text)
    → Returns (artifacts_options resources) p
    → read_by download_args p ≡ some (a, v)
    → IsRelease a.os_version
unfolding download_args
read-IsRelease resources (exits status) a v h e = absurd (cc)
read-IsRelease resources (parsed ns) a v h e =
    let (s, word_is, same_os) = args_from-os_version _ _ _ _ a v e in
    let fits : FitsAt (some os_version) (value_of "os_version" ns) =
      IsTyped-FitsAt "os_version" (artifacts_options resources) ns h in
    rw (← same_os) (word_in-IsRelease (value_of "os_version" ns) s fits word_is)

-- The defaults of the script are among the choices.
artifacts_options-AllFit :
    (resources : Option String) → AllFit (initial_values (artifacts_options resources))
unfolding one_of
artifacts_options-AllFit resources = (tt, (refl, (tt, (refl, (refl, (refl, (refl, tt)))))))

module _ (guess : Text → Option Text) (post : Request → Posted) (url_of : Text → Text)
    (get : Text → Response) (unpack : Text → Files → Files) where
  -- For any command line that artifacts.py accepts and that asks for the version "latest", whatever
  -- the variable RESOURCES: on a release that holds what the upload script has posted, in the order
  -- of its requests, the script ends with the error that the kernel is not found, and changes
  -- nothing.
  pub parse_artifacts-kernel_not_found :
      (resources : Option String) (argv : List String) (args : Args)
      (tag id kernel client new : Text) (releases : List Release) (names : List Text)
      (requests : List Request) (s : State)
      → parse_artifacts resources argv ≡ some (args, codes "latest")
      → main guess post tag id kernel client releases names ≡ some requests
      → download_move_assets get unpack args (published url_of new requests) (codes "latest") s
        ≡ raised (kernel_not_found (kernel_name args)) s
  unfolding parse_artifacts
  parse_artifacts-kernel_not_found resources argv args tag id kernel client new releases names
        requests s accepted posted =
      published-download_move_assets guess post url_of get unpack args tag id kernel client new
        releases names requests s
        (read-IsRelease resources (parse_args (artifacts_options resources) argv) args
          (codes "latest")
          (parse_args-Returns (artifacts_options resources) argv
            (artifacts_options-AllFit resources))
          accepted)
        posted
