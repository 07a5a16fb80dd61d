-- ===== src/Codebase/Chunker.antt =====
-- `SemanticChunker`, services/codebase-comprehension/src/codebase_comprehension/chunker.py, on the
-- fields of models.py that it reads. Line numbers count from 1, and a number out of range gives nothing.
pub mod Blocks
pub mod Chunks
use architect.Common.{
  ℕ, zero, suc, ◌+◌, ◌-◌, ◌*◌, Bool, true, false, ◌||◌, Option, none, some, List, [], ◌∷◌, ◌++◌,
  map, length, take, drop, ltb, leb, if◌then◌else◌,
}
use architect.Common.Text.{
  Text, codes, strip, lstrip, rstrip, starts_with, splitlines_keepends, join,
}

pub record FunctionDef : Type 0 where
  pub name : Text
  pub line_number : ℕ

pub record ClassDef : Type 0 where
  pub name : Text
  pub line_number : ℕ
  pub methods : List FunctionDef

pub record FileIndex : Type 0 where
  pub path : Text
  pub functions : List FunctionDef
  pub classes : List ClassDef

pub data SymbolKind : Type 0 where
  function_kind class_kind method_kind : SymbolKind

pub record CodeChunk : Type 0 where
  pub file_path : Text
  pub symbol_name : Text
  pub symbol_kind : SymbolKind
  pub line_number : ℕ
  pub end_line : ℕ
  pub source : Text
  pub context : Text

module _ {A : Type 0} where
  -- `xs[i:j]`
  abbrev pub slice : ℕ → ℕ → List A → List A
  slice i j xs = take (j - i) (drop i xs)

abbrev pub is_empty : Text → Bool
is_empty [] = true
is_empty (c ∷ s) = false

abbrev pub indent : Text → ℕ
indent line = length line - length (lstrip line)

-- The loop over the lines behind a definition.
unfoldable pub scan : ℕ → ℕ → ℕ → List Text → ℕ
scan base_indent end i [] = end
scan base_indent end i (line ∷ lines) =
    let after_blank = scan base_indent end (suc i) lines in
    let after_deeper = scan base_indent (suc i) (suc i) lines in
    if is_empty (strip line)
    then after_blank
    else if leb (indent line) base_indent
    then end
    else after_deeper

-- `lines[start_line - 1]` and the lines behind it.
abbrev pub scan_from : ℕ → List Text → ℕ
scan_from start_line [] = start_line
scan_from start_line (def_line ∷ lines) = scan (indent def_line) start_line start_line lines

abbrev pub out_of_range : ℕ → List Text → Bool
out_of_range start_line lines = ltb start_line 1 || ltb (length lines) start_line

unfoldable pub estimate_end_line : ℕ → List Text → ℕ
estimate_end_line start_line lines =
    if out_of_range start_line lines
    then start_line
    else scan_from start_line (drop (start_line - 1) lines)

unfoldable pub estimate_class_end : ℕ → List Text → ℕ
estimate_class_end start_line lines =
    if out_of_range start_line lines
    then start_line
    else scan_from start_line (drop (start_line - 1) lines)

-- A comment, a decorator or an empty line.
abbrev pub is_remark : Text → Bool
is_remark line =
    starts_with (codes "#") (strip line)
    || starts_with (codes "@") (strip line)
    || is_empty (strip line)

abbrev pub is_remark_at : List Text → Bool
is_remark_at [] = false
is_remark_at (line ∷ lines) = is_remark line

-- The walk backwards, with one more than `idx`.
unfoldable pub walk_back : List Text → ℕ → ℕ → ℕ
walk_back lines zero context_start = context_start
walk_back lines (suc idx) context_start =
    let rest = walk_back lines idx idx in
    if is_remark_at (drop idx lines) then rest else context_start

abbrev pub min : ℕ → ℕ → ℕ
min a b = if leb a b then a else b

abbrev pub truncated : ℕ → Text → Text
truncated max_chars text =
    if ltb max_chars (length text) then take max_chars text ++ codes "\n# ... truncated" else text

abbrev pub context_of : ℕ → List Text → Text
context_of start_line lines =
    rstrip (join (slice (walk_back lines (start_line - 1) (start_line - 2)) (start_line - 1) lines))

-- A chunk in a list, unless it is `None`.
abbrev pub some_chunk : Option CodeChunk → List CodeChunk → List CodeChunk
some_chunk none chunks = chunks
some_chunk (some chunk) chunks = chunk ∷ chunks

module _ (max_tokens : ℕ) where
  unfoldable pub build_chunk : List Text → Text → Text → SymbolKind → ℕ → ℕ → Option CodeChunk
  build_chunk lines file_path symbol_name symbol_kind start_line end_line =
      let end = min end_line (length lines) in
      if out_of_range start_line lines
      then none
      else some (record {
        file_path = file_path;
        symbol_name = symbol_name;
        symbol_kind = symbol_kind;
        line_number = start_line;
        end_line = end;
        source = truncated (max_tokens * 4) (rstrip (join (slice (start_line - 1) end lines)));
        context = context_of start_line lines;
      })

  abbrev pub function_chunk : List Text → Text → FunctionDef → Option CodeChunk
  function_chunk lines path f =
      build_chunk lines path f.name function_kind f.line_number
        (estimate_end_line f.line_number lines)

  abbrev pub method_chunk : List Text → Text → Text → FunctionDef → Option CodeChunk
  method_chunk lines path class_name f =
      build_chunk lines path (class_name ++ codes "." ++ f.name) method_kind f.line_number
        (estimate_end_line f.line_number lines)

  abbrev pub class_chunk : List Text → Text → ClassDef → Option CodeChunk
  class_chunk lines path c =
      build_chunk lines path c.name class_kind c.line_number
        (estimate_class_end c.line_number lines)

  abbrev pub method_chunks :
      List Text → Text → Text → List FunctionDef → List CodeChunk → List CodeChunk
  method_chunks lines path class_name [] chunks = chunks
  method_chunks lines path class_name (f ∷ fs) chunks =
      some_chunk (method_chunk lines path class_name f)
        (method_chunks lines path class_name fs chunks)

  abbrev pub class_chunks : List Text → Text → List ClassDef → List CodeChunk
  class_chunks lines path [] = []
  class_chunks lines path (c ∷ cs) =
      some_chunk (class_chunk lines path c)
        (method_chunks lines path c.name c.methods (class_chunks lines path cs))

  abbrev pub function_chunks : List Text → Text → List FunctionDef → List CodeChunk → List CodeChunk
  function_chunks lines path [] chunks = chunks
  function_chunks lines path (f ∷ fs) chunks =
      some_chunk (function_chunk lines path f) (function_chunks lines path fs chunks)

  unfoldable pub chunk_file : Text → FileIndex → List CodeChunk
  chunk_file source index =
      let lines = splitlines_keepends source in
      function_chunks lines index.path index.functions (class_chunks lines index.path index.classes)
