-- ===== src/Lsp.antt =====
-- pkg/lsp: the data of the protocol that the queries use (protocol_types.go), and the paths of
-- documents (refs.go). A language server is a record of answers; equal requests of one query have
-- equal answers. URL parsing, quoting and the files are parameters.
pub mod Order
pub mod Distinct
pub mod Names
pub mod Formatter
pub mod Candidates
pub mod Callers
pub mod Refs
pub mod Registry
pub mod Implements
pub mod Framing
pub mod Pending
use codesight.Prelude.{
  ℕ, zero, suc, ◌+◌, ◌≡◌, Bool, true, false, ◌||◌, List, [], ◌∷◌, ◌++◌, ltb, ◌==◌, if◌then◌else◌,
  Option, none, some, get_elem?, leb, ◌-◌,
}
use codesight.Prelude.Int.{ℤ, pos, negsuc, eqb_ℤ, add_one}
use codesight.Text.{Text, str, eqt, has_prefix, trim_space, decimal, split}
use codesight.Text.FilePath.{clean, is_empty, slash}
use codesight.Text.Result.{Result, ok, error, and_then, wrap}
use codesight.Ignore.{PathHost, Matcher, new_matcher, matches_path}

pub record Position : Type 0 where
  pub line : ℤ
  pub character : ℤ

pub record Range : Type 0 where
  pub start : Position
  pub end : Position

pub record Location : Type 0 where
  pub uri : Text
  pub range : Range

pub record SymbolInformation : Type 0 where
  pub name : Text
  pub kind : ℤ
  pub location : Location
  pub container_name : Text

pub record CallHierarchyItem : Type 0 where
  pub name : Text
  pub kind : ℤ
  pub uri : Text
  pub range : Range
  pub selection_range : Range
  pub detail : Text

-- The answers of a language server. A document and a position in it come first where the request names
-- them; of an incoming call only the caller is used.
pub record LspClient : Type 0 where
  pub workspace_symbol : Text → Result (List SymbolInformation)
  pub references : Text → Position → Result (List Location)
  pub prepare : Text → Position → Result (List CallHierarchyItem)
  pub incoming_calls : CallHierarchyItem → Result (List CallHierarchyItem)

-- What the queries use of the system and of Go's libraries.
pub record LspHost : Type 0 where
  pub paths : PathHost
  -- the message of the error where `paths.abs` has none
  pub abs_error : Text → Text
  -- url.Parse: the scheme and the path
  pub parse_url : Text → Result (Text × Text)
  -- url.PathUnescape
  pub path_unescape : Text → Result Text
  -- %q
  pub quote : Text → Text
  pub read_file : Text → Option Text

-- The values of SymbolKind that the queries name.
abbrev pub kind_class : ℤ
kind_class = pos 5

abbrev pub kind_method : ℤ
kind_method = pos 6

abbrev pub kind_constructor : ℤ
kind_constructor = pos 9

abbrev pub kind_enum : ℤ
kind_enum = pos 10

abbrev pub kind_interface : ℤ
kind_interface = pos 11

abbrev pub kind_function : ℤ
kind_function = pos 12

abbrev pub kind_constant : ℤ
kind_constant = pos 14

abbrev pub kind_struct : ℤ
kind_struct = pos 23

abbrev pub kind_type_parameter : ℤ
kind_type_parameter = pos 26

-- %d of an int
abbrev pub decimal_ℤ : ℤ → Text
decimal_ℤ (pos n) = decimal n
decimal_ℤ (negsuc n) = b'-' ∷ decimal (suc n)

abbrev pub symbol_kind_label : ℤ → Text
symbol_kind_label kind =
    if eqb_ℤ kind kind_function
    then str "function"
    else if eqb_ℤ kind kind_method
    then str "method"
    else if eqb_ℤ kind kind_class
    then str "class"
    else if eqb_ℤ kind kind_interface
    then str "interface"
    else if eqb_ℤ kind kind_constant
    then str "constant"
    else str "type"

module _ (host : LspHost) where
  abbrev abs_of : Text → Option Text → Result Text
  abs_of root none = error (str "resolve workspace root: " ++ host.abs_error root)
  abs_of root (some path) = ok (clean path)

  abbrev or_here : Text → Text
  or_here root = if is_empty root then str "." else root

  unfoldable pub resolve_workspace_root : Text → Result Text
  unfolding trim_space clean
  resolve_workspace_root root =
      abs_of (or_here (trim_space root)) (host.paths.abs (or_here (trim_space root)))

  abbrev matcher_or_error : Text → Option Matcher → Result Matcher
  matcher_or_error root none = error (str "load ignore rules: " ++ host.abs_error root)
  matcher_or_error root (some m) = ok m

  unfoldable pub new_workspace_ignore_matcher : Text → Result Matcher
  unfolding new_matcher
  new_workspace_ignore_matcher root = matcher_or_error root (new_matcher host.paths root [])

  -- The checks on the parts of the URL.
  abbrev path_of_url : Text → Text × Text → Result Text
  path_of_url raw parsed =
      if is_empty parsed.0
      then ok (clean raw)
      else if eqt parsed.0 (str "file")
      then and_then
          (wrap (str "decode document URI " ++ host.quote raw ++ str ": ")
            (host.path_unescape parsed.1))
          (λ decoded.
            if is_empty decoded
            then error (str "document URI " ++ host.quote raw ++ str " resolved to empty path")
            else ok (clean decoded))
      else error (str "unsupported document URI scheme " ++ host.quote parsed.0)

  unfoldable pub document_uri_to_path : Text → Result Text
  unfolding trim_space clean eqt and_then
  document_uri_to_path uri =
      let raw = trim_space uri in
      if is_empty raw
      then error (str "document URI is required")
      else and_then
          (wrap (str "parse document URI " ++ host.quote raw ++ str ": ") (host.parse_url raw))
          (path_of_url raw)

  abbrev relative_or : Text → Option Text → Text
  relative_or path none = clean path
  relative_or path (some rel) =
      if has_prefix (str "..") rel || has_prefix (str "/..") rel then clean path else clean rel

  unfoldable pub relative_path : Text → Text → Text
  unfolding clean has_prefix
  relative_path workspace_root path = relative_or path (host.paths.rel workspace_root path)
