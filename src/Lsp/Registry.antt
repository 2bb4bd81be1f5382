-- ===== src/Lsp/Registry.antt =====
-- pkg/lsp/registry.go: which server serves a language. A map is the list of its entries, each key once.
mod Examples
use codesight.Prelude.{
  ◌≡◌, Bool, true, false, List, [], ◌∷◌, ◌++◌, map, if◌then◌else◌, Option, none, some,
}
use codesight.Prelude.Sort.{sort}
use codesight.Text.{Text, str, eqt, less_text, trim_space, join}
use codesight.Text.Unicode.{Unicode}
use codesight.Text.Result.{Result, ok, error}

pub record ServerSpec : Type 0 where
  pub language : Text
  pub binary : Text
  pub args : List Text
  pub install_hint : Text

abbrev pub Servers : Type 0
Servers = List (Text × ServerSpec)

unfoldable pub find_server : Text → Servers → Option ServerSpec
unfolding eqt
find_server key [] = none
find_server key ((language, spec) ∷ rest) =
    let later = find_server key rest in if eqt language key then some spec else later

-- An entry takes the place of the one of its key.
unfoldable pub put_server : Text → ServerSpec → Servers → Servers
unfolding eqt
put_server key spec [] = (key, spec) ∷ []
put_server key spec ((language, old) ∷ rest) =
    let later = put_server key spec rest in
    if eqt language key then (key, spec) ∷ rest else (language, old) ∷ later

abbrev server : Text → Text → List Text → Text → Text × ServerSpec
server language binary args install_hint = (
  language,
  record { language = language; binary = binary; args = args; install_hint = install_hint },
)

abbrev pub default_registry_entries : Servers
default_registry_entries =
    server (str "go") (str "gopls") [] (str "go install golang.org/x/tools/gopls@latest")
    ∷ server (str "python") (str "pylsp") [] (str "pip install python-lsp-server")
    ∷ server (str "java") (str "jdtls") [] (str "https://github.com/eclipse-jdtls/eclipse.jdt.ls")
    ∷ server (str "javascript") (str "typescript-language-server") (str "--stdio" ∷ [])
        (str "npm install -g typescript typescript-language-server")
    ∷ server (str "typescript") (str "typescript-language-server") (str "--stdio" ∷ [])
        (str "npm install -g typescript typescript-language-server")
    ∷ server (str "rust") (str "rust-analyzer") [] (str "rustup component add rust-analyzer")
    ∷ server (str "cpp") (str "clangd") [] (str "install clangd from your package manager")
    ∷ []

module _ (unicode : Unicode) where
  unfoldable pub normalize_language : Text → Text
  unfolding trim_space
  normalize_language language = unicode.to_lower (trim_space language)

  abbrev add_args : Text → List Text → Servers → Option ServerSpec → Servers
  add_args key args entries none = entries
  add_args key [] entries (some spec) = entries
  add_args key (a ∷ args) entries (some spec) =
      put_server key (record spec { args = spec.args ++ a ∷ args }) entries

  -- WithExtraServerArgs, as the change of the entries that it is.
  unfoldable pub with_extra_server_args : Text → List Text → Servers → Servers
  unfolding normalize_language find_server put_server
  with_extra_server_args language args entries =
      add_args (normalize_language language) args entries
        (find_server (normalize_language language) entries)

  unfoldable pub fill_registry : Servers → Servers → Servers
  unfolding normalize_language put_server
  fill_registry servers [] = servers
  fill_registry servers ((language, spec) ∷ rest) =
      let key = normalize_language language in
      fill_registry (put_server key (record spec { language = key }) servers) rest

  unfoldable pub new_registry_from_entries : Servers → Servers
  unfolding fill_registry
  new_registry_from_entries entries = fill_registry [] entries

  unfoldable pub apply_options : List (Servers → Servers) → Servers → Servers
  apply_options [] entries = entries
  apply_options (opt ∷ opts) entries = apply_options opts (opt entries)

  unfoldable pub new_registry : List (Servers → Servers) → Servers
  unfolding apply_options new_registry_from_entries
  new_registry opts = new_registry_from_entries (apply_options opts default_registry_entries)

  abbrev language_of : Text × ServerSpec → Text
  language_of entry = entry.0

  unfoldable pub supported_languages : Servers → List Text
  unfolding sort less_text
  supported_languages servers = sort less_text (map language_of servers)

  abbrev spec_or_error : Text → Servers → Option ServerSpec → Result ServerSpec
  spec_or_error quoted servers none = error (
      str "unsupported language "
      ++ (quoted ++ (str "; supported: " ++ join (str ", ") (supported_languages servers))))
  spec_or_error quoted servers (some spec) = ok spec

  -- Registry.Lookup, of a registry that is not nil; `quote` is %q.
  unfoldable pub lookup_server : (Text → Text) → Servers → Text → Result ServerSpec
  unfolding normalize_language find_server join supported_languages
  lookup_server quote servers language =
      spec_or_error (quote language) servers (find_server (normalize_language language) servers)
