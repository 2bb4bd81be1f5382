-- ===== src/Lsp/Refs/Examples.antt =====
-- A search for references over two files, and the theorem about it.
use codesight.Prelude.{◌≡◌, refl, false, [], ◌∷◌, none, some}
use codesight.Prelude.Int.{pos}
use codesight.Text.{str, trim_space}
use codesight.Ignore.{normalize_patterns, normalize_pattern}
use codesight.Text.Unicode.{ascii}
use codesight.Text.Result.{ok}
use codesight.Lsp.{Position, LspClient, LspHost, kind_function}
use codesight.Lsp.Candidates.{is_name_match}
use codesight.Lsp.Refs.{RefsOptions, find_refs}
use codesight.Lsp.Refs.Grep.{GrepTree, folder, regular, no_entries, and_entry, grep_find}
use codesight.Lsp.Refs.Fallback.{find_refs_useless}

abbrev host : LspHost
host = record {
  paths = record {
    path_match = λ p s. false;
    abs = λ s. some s;
    rel = λ b s. some s;
    ignore_file = λ d n. none;
    exists_path = λ s. false;
    hash = λ s. s;
  };
  abs_error = λ s. [];
  parse_url = λ s. ok ([], s);
  path_unescape = λ s. ok s;
  quote = λ s. s;
  read_file = λ s. none;
}

abbrev files : GrepTree
files = folder (str "w") (
    and_entry (regular (str "a.go") (some (str "run()\nstop()\n")))
      (and_entry (regular (str "vendor") (some (str "run()"))) no_entries))

abbrev here : Position
here = record { line = pos 0; character = pos 0 }

-- The server knows a symbol whose name only begins like the one that is asked for.
abbrev client : LspClient
client = record {
  workspace_symbol = λ s. ok (
      record {
        name = str "running";
        kind = kind_function;
        location = record { uri = str "b.go"; range = record { start = here; end = here } };
        container_name = [];
      }
      ∷ []);
  references = λ u p. ok [];
  prepare = λ u p. ok [];
  incoming_calls = λ i. ok [];
}

abbrev opts : RefsOptions
opts = record {
  workspace_root = str "w";
  filter_path = str "b.go";
  symbol = str "run";
  kind = [];
  fallback_lsp = str "gopls";
}

-- The path that the search is narrowed to does not narrow the search through the files.
searched :
    find_refs host (grep_find host files) ascii (some client) opts
    ≡ ok (
        str
          "(grep-based - install gopls for precise results)\na.go (1 ref)\n  :1  run()\n1 references found")
unfolding find_refs grep_find normalize_patterns normalize_pattern
searched = refl

other_name : is_name_match (str "running") (trim_space opts.symbol) ≡ false
unfolding is_name_match trim_space
other_name = refl

find_refs_useless_example :
    find_refs host (grep_find host files) ascii (some client) opts
    ≡ find_refs host (grep_find host files) ascii none opts
find_refs_useless_example =
    find_refs_useless host (grep_find host files) ascii client opts (λ path. (path, refl))
      (other_name, tt)
