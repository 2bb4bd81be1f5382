-- ===== src/Lsp/Registry/Examples.antt =====
-- The registry with an extra argument, and a language without a server.
use codesight.Prelude.{◌≡◌, refl, [], ◌∷◌}
use codesight.Text.{str}
use codesight.Text.Unicode.{ascii}
use codesight.Text.Result.{ok, error}
use codesight.Lsp.Registry.{Servers, with_extra_server_args, new_registry, lookup_server}

abbrev registry : Servers
registry =
    new_registry ascii (with_extra_server_args ascii (str " JavaScript ") (str "-v" ∷ []) ∷ [])

found :
    lookup_server ascii (λ s. s) registry (str "JAVASCRIPT ")
    ≡ ok (record {
      language = str "javascript";
      binary = str "typescript-language-server";
      args = str "--stdio" ∷ str "-v" ∷ [];
      install_hint = str "npm install -g typescript typescript-language-server";
    })
unfolding lookup_server new_registry with_extra_server_args
found = refl

unsupported :
    lookup_server ascii (λ s. s) registry (str "zig")
    ≡ error (
        str
          "unsupported language zig; supported: cpp, go, java, javascript, python, rust, typescript")
unfolding lookup_server new_registry with_extra_server_args
unsupported = refl
