-- ===== src/Engine.antt =====
-- pkg/engine/types.go: the data that a unified query works on and returns.
-- Go's `int` is a natural number where the program only counts or numbers lines, and ℤ where it
-- computes a signed value. A float64 score is an exact fraction (see Engine/Scoring.antt).
pub mod Budget
pub mod Router
pub mod Scoring
pub mod Syntax
pub mod Slicer
pub mod Outline
pub mod Query
mod Examples
use codesight.Prelude.{ℕ, List, Option}
use codesight.Prelude.Int.{ℤ}
use codesight.Text.{Text}

pub record OutlineEntry : Type 0 where
  pub name : Text
  pub kind : Text
  pub line : ℕ
  pub end_line : ℕ
  pub signature : Text
  pub visibility : Text

pub record CodeSlice : Type 0 where
  pub label : Text
  pub start_line : ℕ
  pub end_line : ℕ
  pub reason : Text
  pub code : Text

pub record SymDefinition : Type 0 where
  pub file : Text
  pub line : ℕ
  pub end_line : ℕ
  pub type : Text
  pub signature : Text
  pub docstring : Text
  pub body : Text
  pub slices : List CodeSlice
  pub outline : List OutlineEntry
  pub view_strategy : Text
  pub language : Text

pub record SymDefinitionRef : Type 0 where
  pub file : Text
  pub line : ℕ
  pub end_line : ℕ
  pub type : Text

pub record SymReference : Type 0 where
  pub file : Text
  pub line : ℕ
  pub snippet : Text
  pub score : ℤ
  pub reason : Text

pub record SymCaller : Type 0 where
  pub symbol : Text
  pub file : Text
  pub line : ℕ
  pub depth : ℕ
  pub score : ℤ
  pub reason : Text

pub record SymImpl : Type 0 where
  pub name : Text
  pub file : Text
  pub line : ℕ

pub record SymCandidate : Type 0 where
  pub name : Text
  pub type : Text
  pub file : Text
  pub reason : Text

pub record SymBudget : Type 0 where
  pub total_lines : ℤ
  pub definition_lines : ℤ
  pub reference_lines : ℤ
  pub caller_lines : ℤ
  pub meta_lines : ℤ

-- `confidence` is in hundredths.
pub record SymMeta : Type 0 where
  pub mode : Text
  pub search_chain : List Text
  pub confidence : ℕ
  pub budget : SymBudget
  pub refs_source : Text
  pub refs_shown : ℕ
  pub refs_total : ℕ
  pub errors : List Text
  pub next_hint : Text

pub record SymbolIntelligence : Type 0 where
  pub query : Text
  pub mode : Text
  pub status : Text
  pub symbol : Text
  pub definition : Option SymDefinition
  pub other_definitions : List SymDefinitionRef
  pub ambiguous : List SymCandidate
  pub references : List SymReference
  pub callers : List SymCaller
  pub implementations : List SymImpl
  pub meta : SymMeta
