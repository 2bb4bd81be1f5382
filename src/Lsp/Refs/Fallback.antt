-- ===== src/Lsp/Refs/Fallback.antt =====
-- When the search through the files takes the place of the language server.
use codesight.Prelude.{◌≡◌, refl, ap, false, List, [], ◌∷◌, All, if◌then◌else◌, none, some}
use codesight.Text.{Text, str, trim_space}
use codesight.Text.FilePath.{is_empty}
use codesight.Text.Unicode.{Unicode}
use codesight.Text.Result.{Result, ok, error, and_then}
use codesight.Ignore.{Matcher}
use codesight.Lsp.{
  SymbolInformation, LspClient, LspHost, new_workspace_ignore_matcher, resolve_workspace_root,
}
use codesight.Lsp.Candidates.{is_name_match, wanted_reference, resolve_wanted, resolve_candidates}
use codesight.Lsp.Refs.{
  RefsOptions, RefsFallback, Answer, answered, unavailable, not_found, refused, answer_then,
  with_refs_symbols, find_with_lsp, or_fallback, find_refs_at, find_refs, normalize_ref_kind,
}

-- An answer of the server to the request for symbols that has no symbol of that name.
abbrev pub IsUseless : Text → Result (List SymbolInformation) → Type 0
IsUseless symbol (error message) = Unit
IsUseless symbol (ok symbols) =
    All (λ (s : SymbolInformation). is_name_match s.name symbol ≡ false) symbols

abbrev IsUnused : Answer → Type 0
IsUnused (answered output) = ⊥
IsUnused (unavailable message) = Unit
IsUnused (not_found message) = Unit
IsUnused (refused message) = ⊥

abbrev IsFine : {A : Type 0} → Result A → Type 0
IsFine (ok a) = Unit
IsFine (error message) = ⊥

answer_then-IsUnused :
    {A : Type 0} (r : Result A) (failing : Text → Answer) (next : A → Answer)
    → IsFine r
    → ((a : A) → IsUnused (next a))
    → IsUnused (answer_then r failing next)
unfolding answer_then
answer_then-IsUnused (ok a) failing next h k = k a
answer_then-IsUnused (error message) failing next h k = elim h [ ]

and_then-ext :
    {A B : Type 0} (r : Result A) (f g : A → Result B)
    → ((a : A) → f a ≡ g a)
    → and_then r f ≡ and_then r g
unfolding and_then
and_then-ext (ok a) f g h = h a
and_then-ext (error message) f g h = refl

module _ (host : LspHost) (fallback : RefsFallback) where
  or_fallback-IsUnused :
      (answer : Answer) (by_text : Result Text)
      → IsUnused answer
      → or_fallback host fallback answer by_text ≡ by_text
  or_fallback-IsUnused (answered output) by_text h = elim h [ ]
  or_fallback-IsUnused (unavailable message) by_text h = refl
  or_fallback-IsUnused (not_found message) by_text h = refl
  or_fallback-IsUnused (refused message) by_text h = elim h [ ]

  resolve_wanted_none :
      (root filter_path : Text) (matcher : Matcher) (symbol kind : Text)
      (symbols : List SymbolInformation)
      → All (λ (s : SymbolInformation). is_name_match s.name symbol ≡ false) symbols
      → resolve_wanted host root filter_path matcher
          (wanted_reference host root filter_path matcher symbol kind)
          symbols
        ≡ ok []
  unfolding resolve_wanted
  resolve_wanted_none root filter_path matcher symbol kind [] h = refl
  resolve_wanted_none root filter_path matcher symbol kind (s ∷ symbols) h =
      rw h.0 (resolve_wanted_none root filter_path matcher symbol kind symbols h.1)

  resolve_candidates_none :
      (root filter_path : Text) (matcher : Matcher) (symbol kind : Text)
      (symbols : List SymbolInformation)
      → All (λ (s : SymbolInformation). is_name_match s.name symbol ≡ false) symbols
      → resolve_candidates host root filter_path matcher symbols symbol kind ≡ ok []
  unfolding resolve_candidates
  resolve_candidates_none root filter_path matcher symbol kind symbols h =
      rw (resolve_wanted_none root filter_path matcher symbol kind symbols h) refl

  with_refs_symbols-IsUnused :
      (client : LspClient) (root filter_path : Text) (matcher : Matcher) (symbol kind : Text)
      (symbols : List SymbolInformation)
      → All (λ (s : SymbolInformation). is_name_match s.name symbol ≡ false) symbols
      → IsUnused
          (with_refs_symbols host fallback client root matcher filter_path symbol kind symbols)
  unfolding with_refs_symbols
  with_refs_symbols-IsUnused client root filter_path matcher symbol kind [] h = tt
  with_refs_symbols-IsUnused client root filter_path matcher symbol kind (s ∷ symbols) h =
      rw (resolve_candidates_none root filter_path matcher symbol kind (s ∷ symbols) h) tt

  after_symbols-IsUnused :
      (client : LspClient) (root filter_path : Text) (matcher : Matcher) (symbol kind : Text)
      (failing : Text → Text) (answer : Result (List SymbolInformation))
      → IsUseless symbol answer
      → IsUnused (
          answer_then answer
            (λ message. unavailable (failing message))
            (with_refs_symbols host fallback client root matcher filter_path symbol kind))
  unfolding answer_then
  after_symbols-IsUnused client root filter_path matcher symbol kind failing (error message) h = tt
  after_symbols-IsUnused client root filter_path matcher symbol kind failing (ok symbols) h =
      with_refs_symbols-IsUnused client root filter_path matcher symbol kind symbols h

  module _ (found : (path : Text) → (a : Text) × (host.paths.abs path ≡ some a)) where
    matcher-IsFine : (root : Text) → IsFine (new_workspace_ignore_matcher host root)
    unfolding new_workspace_ignore_matcher
    matcher-IsFine root = rw (found root).1 tt

    find_with_lsp-IsUnused :
        (client : LspClient) (root filter_path symbol kind : Text)
        → IsUseless symbol (client.workspace_symbol symbol)
        → IsUnused (find_with_lsp host fallback client root filter_path symbol kind)
    unfolding find_with_lsp
    find_with_lsp-IsUnused client root filter_path symbol kind h =
        answer_then-IsUnused (new_workspace_ignore_matcher host root) _ _ (matcher-IsFine root)
          (λ matcher.
            after_symbols-IsUnused client root filter_path matcher symbol kind _
              (client.workspace_symbol symbol) h)

    find_refs_at_unused :
        (client : LspClient) (opts : RefsOptions) (symbol root kind : Text)
        → IsUseless symbol (client.workspace_symbol symbol)
        → find_refs_at host fallback (some client) opts symbol root kind
          ≡ find_refs_at host fallback none opts symbol root kind
    find_refs_at_unused client opts symbol root kind h =
        or_fallback-IsUnused (find_with_lsp host fallback client root opts.filter_path symbol kind)
          _ (find_with_lsp-IsUnused client root opts.filter_path symbol kind h)

-- Where paths can be made absolute, a server that fails to list symbols, lists none, or lists only
-- symbols of other names makes no difference: the result is that of the search through the files.
pub find_refs_useless :
    (host : LspHost) (fallback : RefsFallback) (unicode : Unicode) (client : LspClient)
    (opts : RefsOptions)
    → ((path : Text) → (a : Text) × (host.paths.abs path ≡ some a))
    → IsUseless (trim_space opts.symbol) (client.workspace_symbol (trim_space opts.symbol))
    → find_refs host fallback unicode (some client) opts ≡ find_refs host fallback unicode none opts
unfolding find_refs
find_refs_useless host fallback unicode client opts found h =
    ap
      (λ rest. if is_empty (trim_space opts.symbol) then error (str "symbol is required") else rest)
      (and_then-ext (resolve_workspace_root host opts.workspace_root) _ _ (λ root.
        and_then-ext (normalize_ref_kind host unicode opts.kind) _ _ (λ kind.
          find_refs_at_unused host fallback found client opts (trim_space opts.symbol) root kind
            h)))
