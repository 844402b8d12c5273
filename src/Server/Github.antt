-- ===== src/Server/Github.antt =====
-- server/github.cpp: `resolve_ref`, with the run of curl as an argument: its exit code and its
-- output, a list of bytes. `json_of` is nlohmann's parser.
use Prim.Native.String.{◌++◌}
use text.Mathlib.Text.{◌==◌ as str_eq}
use capi_net.Base.{
  ℕ, Bool, true, false, not, ◌&&◌, ◌||◌, Option, none, some, List, [], ◌∷◌, String, leb, ◌==◌,
  if◌then◌else◌, length, all,
}
use capi_net.Base.Json.{Value, string, object, lookup}
use capi_net.Base.Numerals.{codes, is_digit}
use capi_net.Common.Process.{tail_lines}
use capi_net.Server.Config.{ServerConfig}

-- a commit, or GithubError with its `not_found`
pub data Resolved : Type 0 where
  resolved : String → Resolved
  github_error : String → Bool → Resolved

pub record CurlRun : Type 0 where
  pub exit_code : ℕ
  pub output : List ℕ

unfoldable pub is_full_sha : List ℕ → Bool
is_full_sha s = length s == 40 && all (λ c. is_digit c || (leb b'a' c && leb c b'f')) s

-- the configuration that curl reads from its input
unfoldable pub curl_config : {F : Type 0} → ServerConfig F → String → String
curl_config cfg ref =
    "url = \""
    ++ cfg.github_api
    ++ "/repos/"
    ++ cfg.github_repo
    ++ "/commits/"
    ++ ref
    ++ "\"\n"
    ++ "header = \"Accept: application/vnd.github+json\"\n"
    ++ "header = \"X-GitHub-Api-Version: 2022-11-28\"\n"
    ++ "header = \"User-Agent: capi_net\"\n"
    ++ (if str_eq cfg.github_token ""
        then ""
        else "header = \"Authorization: Bearer " ++ cfg.github_token ++ "\"\n")
    ++ "silent\nshow-error\nlocation\nmax-time = 20\n"
    ++ "write-out = \"\\n%{http_code}\"\n"

-- the text before the last newline and the text behind it, if there is one
unfoldable pub last_line : List ℕ → Option (List ℕ × List ℕ)
last_line [] = none
last_line (c ∷ cs) = before c cs (last_line cs)
  where
    before : ℕ → List ℕ → Option (List ℕ × List ℕ) → Option (List ℕ × List ℕ)
    before c cs none = if c == b'\n' then some ([], cs) else none
    before c cs (some (body, code)) = some (c ∷ body, code)

abbrev pub same_text : List ℕ → List ℕ → Bool
same_text [] [] = true
same_text (a ∷ as_) (b ∷ bs) = a == b && same_text as_ bs
same_text _ _ = false

-- the body and the code that `write-out` puts behind it
abbrev pub body_and_code : List ℕ → List ℕ × List ℕ
body_and_code output = elim (last_line output) [ none ↦ (output, []) | some p ↦ p ]

abbrev pub resolved_or : String → Option String → Resolved
resolved_or ref none = github_error ("unexpected GitHub API response for ref " ++ ref) false
resolved_or ref (some sha) = resolved sha

module _ {F : Type 0} where
  -- `j.contains("sha") && j["sha"].is_string() && is_full_sha(...)`
  abbrev pub sha_of : Option (Value F) → Option String
  sha_of (some (object ms)) = full (lookup "sha" ms)
    where
      full : Option (Value F) → Option String
      full (some (string s)) = if is_full_sha (codes s) then some s else none
      full _ = none
  sha_of _ = none

  unfoldable pub resolve_ref :
      (List ℕ → Option (Value F)) → (List ℕ → String) → ServerConfig F → String → CurlRun → Resolved
  resolve_ref json_of text cfg ref r =
      let (body, code) = body_and_code r.output in
      if not (r.exit_code == 0)
      then github_error ("GitHub API unreachable: " ++ text (tail_lines r.output 3)) false
      else if same_text code (codes "404") || same_text code (codes "422")
      then github_error ("ref not found in " ++ cfg.github_repo ++ ": " ++ ref) true
      else if not (same_text code (codes "200"))
      then github_error ("GitHub API returned HTTP " ++ text code ++ " for ref " ++ ref) false
      else resolved_or ref (sha_of (json_of body))
