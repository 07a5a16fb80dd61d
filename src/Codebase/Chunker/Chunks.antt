-- ===== src/Codebase/Chunker/Chunks.antt =====
-- The chunks that `chunk_file` (chunker.py) makes of a file.
use architect.Common.{
  take, drop, ℕ, zero, suc, ◌+◌, ◌-◌, ◌*◌, ◌≤◌, ◌<◌, ◌≡◌, refl, ap, ◌∙◌, inl, inr, Bool, true,
  false, not, none, some, List, [], ◌∷◌, ◌++◌, filter, length, arith, Bool-cases,
}
use architect.Common.Text.{Text, codes, rstrip, splitlines_keepends, join}
use architect.Codebase.Chunker.{
  FunctionDef, ClassDef, FileIndex, SymbolKind, function_kind, class_kind, method_kind, CodeChunk,
  slice, indent, scan_from, out_of_range, estimate_end_line, estimate_class_end, walk_back, min,
  truncated, context_of, some_chunk, build_chunk, method_chunks, class_chunks, function_chunks,
  chunk_file,
}
use architect.Codebase.Chunker.Blocks.{
  IsBlock, IsContextStart, scan-IsBlock, walk_back-IsContextStart,
}

-- A symbol that gets a chunk.
pub record Symbol : Type 0 where
  pub name : Text
  pub kind : SymbolKind
  pub line_number : ℕ

abbrev pub function_symbols : List FunctionDef → List Symbol
function_symbols [] = []
function_symbols (f ∷ fs) =
    record { name = f.name; kind = function_kind; line_number = f.line_number }
    ∷ function_symbols fs

abbrev pub method_symbols : Text → List FunctionDef → List Symbol
method_symbols class_name [] = []
method_symbols class_name (f ∷ fs) =
    record {
      name = class_name ++ codes "." ++ f.name;
      kind = method_kind;
      line_number = f.line_number;
    }
    ∷ method_symbols class_name fs

abbrev pub class_symbols : List ClassDef → List Symbol
class_symbols [] = []
class_symbols (c ∷ cs) =
    record { name = c.name; kind = class_kind; line_number = c.line_number }
    ∷ (method_symbols c.name c.methods ++ class_symbols cs)

abbrev pub symbols : FileIndex → List Symbol
symbols index = function_symbols index.functions ++ class_symbols index.classes

drop-cons :
    (k : ℕ) (ls : List Text)
    → k < length ls
    → (d : Text) × (b : List Text) × (drop k ls ≡ d ∷ b) × (length ls ≡ k + suc (length b))
drop-cons k [] h = absurd (omega (arith, h))
drop-cons zero (l ∷ ls) h = (l, ls, refl, omega arith)
drop-cons (suc k) (l ∷ ls) h =
    let (d, b, e, n) = drop-cons k ls (omega (arith, h)) in (d, b, e, omega (arith, n))

slice-cons :
    (start size : ℕ) (ls : List Text) (d : Text) (b : List Text)
    → 1 ≤ start
    → drop (start - 1) ls ≡ d ∷ b
    → slice (start - 1) (start + size) ls ≡ d ∷ take size b
slice-cons start size ls d b some_line here =
    let span : start + size - (start - 1) ≡ suc size = omega (arith, some_line) in
    ap (λ (n : ℕ). take n (drop (start - 1) ls)) span ∙ ap (take (suc size)) here

min-eq : (end n k : ℕ) → end ≡ n → n ≤ k → min end k ≡ n
min-eq end n k e fits = ground arith

module _ (max_tokens : ℕ) (lines : List Text) (path : Text) where
  -- The chunk of a symbol: it starts at the symbol's line, reaches to the end of the block behind
  -- it, and has the lines as its source, cut if they are too long.
  pub record IsChunk (s : Symbol) (chunk : CodeChunk) : Type 0 where
    pub def_line : Text
    pub behind : List Text
    pub size : ℕ
    pub context_start : ℕ
    pub path_eq : chunk.file_path ≡ path
    pub name_eq : chunk.symbol_name ≡ s.name
    pub kind_eq : chunk.symbol_kind ≡ s.kind
    pub starts : chunk.line_number ≡ s.line_number
    pub is_line : drop (s.line_number - 1) lines ≡ def_line ∷ behind
    pub is_block : IsBlock (indent def_line) size behind
    pub end_eq : chunk.end_line ≡ s.line_number + size
    pub end_le : chunk.end_line ≤ length lines
    pub source_eq :
        chunk.source ≡ truncated (max_tokens * 4) (rstrip (join (def_line ∷ take size behind)))
    pub is_context : IsContextStart lines (s.line_number - 1) (s.line_number - 2) context_start
    pub context_eq : chunk.context ≡ rstrip (join (slice context_start (s.line_number - 1) lines))

  abbrev pub AreChunks : List Symbol → List CodeChunk → Type 0
  AreChunks [] [] = Unit {0}
  AreChunks (s ∷ ss) (chunk ∷ chunks) = IsChunk s chunk × AreChunks ss chunks
  AreChunks _ _ = ⊥

  abbrev pub is_in_file : Symbol → Bool
  is_in_file s = not (out_of_range s.line_number lines)

  build_chunk-IsChunk :
      (s : Symbol) (end : ℕ)
      → end ≡ scan_from s.line_number (drop (s.line_number - 1) lines)
      → out_of_range s.line_number lines ≡ false
      → (chunk : CodeChunk) × (build_chunk max_tokens lines path s.name s.kind s.line_number end
          ≡ some chunk)
        × IsChunk s chunk
  unfolding build_chunk
  build_chunk-IsChunk s end at_end in_range =
      let start = s.line_number in
      let some_line : 1 ≤ start = ground (arith, in_range) in
      let below : start ≤ length lines = ground (arith, in_range) in
      let (def_line, behind, here, total) =
        drop-cons (start - 1) lines (omega (arith, below, some_line)) in
      let (size, block, reached) = scan-IsBlock (indent def_line) start behind in
      let end_eq : end ≡ start + size = at_end ∙ ap (scan_from start) here ∙ reached in
      let fits : start + size ≤ length lines = omega (arith, total, block.is_within, some_line) in
      let least = min-eq end (start + size) (length lines) end_eq fits in
      rw in_range (
        record {
          file_path = path;
          symbol_name = s.name;
          symbol_kind = s.kind;
          line_number = start;
          end_line = min end (length lines);
          source =
              truncated (max_tokens * 4)
                (rstrip (join (slice (start - 1) (min end (length lines)) lines)));
          context = context_of start lines;
        },
        refl,
        record {
          def_line = def_line;
          behind = behind;
          size = size;
          context_start = walk_back lines (start - 1) (start - 2);
          path_eq = refl;
          name_eq = refl;
          kind_eq = refl;
          starts = refl;
          is_line = here;
          is_block = block;
          end_eq = least;
          end_le = omega (arith, least, fits);
          source_eq =
              ap (λ (n : ℕ). truncated (max_tokens * 4) (rstrip (join (slice (start - 1) n lines))))
                least
              ∙ ap (λ ls. truncated (max_tokens * 4) (rstrip (join ls)))
                  (slice-cons start size lines def_line behind some_line here);
          is_context = walk_back-IsContextStart lines (start - 1) (start - 2);
          context_eq = refl;
        },
      )

  build_chunk-none :
      (s : Symbol) (end : ℕ)
      → out_of_range s.line_number lines ≡ true
      → build_chunk max_tokens lines path s.name s.kind s.line_number end ≡ none
  unfolding build_chunk
  build_chunk-none s end e = rw e refl

  end_line-scan_from :
      (n : ℕ)
      → out_of_range n lines ≡ false
      → estimate_end_line n lines ≡ scan_from n (drop (n - 1) lines)
  unfolding estimate_end_line
  end_line-scan_from n e = rw e refl

  class_end-scan_from :
      (n : ℕ)
      → out_of_range n lines ≡ false
      → estimate_class_end n lines ≡ scan_from n (drop (n - 1) lines)
  unfolding estimate_class_end
  class_end-scan_from n e = rw e refl

  -- One more symbol before the others.
  some_chunk-AreChunks :
      (s : Symbol) (end : ℕ) (ss : List Symbol) (chunks : List CodeChunk)
      → (out_of_range s.line_number lines ≡ false
          → end ≡ scan_from s.line_number (drop (s.line_number - 1) lines))
      → AreChunks (filter is_in_file ss) chunks
      → AreChunks
          (filter is_in_file (s ∷ ss))
          (some_chunk (build_chunk max_tokens lines path s.name s.kind s.line_number end) chunks)
  some_chunk-AreChunks s end ss chunks at_end h =
      elim (Bool-cases (out_of_range s.line_number lines)) [
        | inl e ↦ rw e (rw (build_chunk-none s end e) h)
        | inr e ↦
            let (chunk, made, is_chunk) = build_chunk-IsChunk s end (at_end e) e in
            rw e (rw made (is_chunk, h))
      ]

  method_chunks-AreChunks :
      (class_name : Text) (fs : List FunctionDef) (ss : List Symbol) (chunks : List CodeChunk)
      → AreChunks (filter is_in_file ss) chunks
      → AreChunks
          (filter is_in_file (method_symbols class_name fs ++ ss))
          (method_chunks max_tokens lines path class_name fs chunks)
  method_chunks-AreChunks class_name [] ss chunks h = h
  method_chunks-AreChunks class_name (f ∷ fs) ss chunks h =
      some_chunk-AreChunks
        (record {
          name = class_name ++ codes "." ++ f.name;
          kind = method_kind;
          line_number = f.line_number;
        })
        (estimate_end_line f.line_number lines) (method_symbols class_name fs ++ ss)
        (method_chunks max_tokens lines path class_name fs chunks)
        (end_line-scan_from f.line_number) (method_chunks-AreChunks class_name fs ss chunks h)

  class_chunks-AreChunks :
      (cs : List ClassDef)
      → AreChunks (filter is_in_file (class_symbols cs)) (class_chunks max_tokens lines path cs)
  class_chunks-AreChunks [] = tt
  class_chunks-AreChunks (c ∷ cs) =
      some_chunk-AreChunks
        (record { name = c.name; kind = class_kind; line_number = c.line_number })
        (estimate_class_end c.line_number lines)
        (method_symbols c.name c.methods ++ class_symbols cs)
        (method_chunks max_tokens lines path c.name c.methods
          (class_chunks max_tokens lines path cs))
        (class_end-scan_from c.line_number)
        (method_chunks-AreChunks c.name c.methods (class_symbols cs)
          (class_chunks max_tokens lines path cs) (class_chunks-AreChunks cs))

  function_chunks-AreChunks :
      (fs : List FunctionDef) (ss : List Symbol) (chunks : List CodeChunk)
      → AreChunks (filter is_in_file ss) chunks
      → AreChunks
          (filter is_in_file (function_symbols fs ++ ss))
          (function_chunks max_tokens lines path fs chunks)
  function_chunks-AreChunks [] ss chunks h = h
  function_chunks-AreChunks (f ∷ fs) ss chunks h =
      some_chunk-AreChunks
        (record { name = f.name; kind = function_kind; line_number = f.line_number })
        (estimate_end_line f.line_number lines) (function_symbols fs ++ ss)
        (function_chunks max_tokens lines path fs chunks) (end_line-scan_from f.line_number)
        (function_chunks-AreChunks fs ss chunks h)

-- The chunks of a file are those of its functions, and of its classes, each before its methods, less
-- those on no line of it. Each reaches from its line to the end of the block of blank or deeper
-- lines behind it, which does not end with a blank one. Its source is these lines, without white space
-- at the end, and cut if they have more than four times `max_tokens` characters. Its context is what
-- stands above from the first of the remarks right above it, or the line above it if that is none,
-- without white space at the end.
pub chunk_file-AreChunks :
    (max_tokens : ℕ) (source : Text) (index : FileIndex)
    → AreChunks max_tokens
        (splitlines_keepends source)
        index.path
        (filter (is_in_file max_tokens (splitlines_keepends source) index.path) (symbols index))
        (chunk_file max_tokens source index)
unfolding chunk_file
chunk_file-AreChunks max_tokens source index =
    let lines = splitlines_keepends source in
    function_chunks-AreChunks max_tokens lines index.path index.functions
      (class_symbols index.classes) (class_chunks max_tokens lines index.path index.classes)
      (class_chunks-AreChunks max_tokens lines index.path index.classes)
