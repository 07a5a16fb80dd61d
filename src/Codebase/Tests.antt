-- ===== src/Codebase/Tests.antt =====
-- The chunker (chunker.py) on a small file.
use architect.Common.{◌≡◌, refl, [], ◌∷◌, filter}
use architect.Common.Text.{Text, codes, strip, splitlines_keepends}
use architect.Codebase.Chunker.{
  FileIndex, function_kind, class_kind, method_kind, scan, estimate_end_line, estimate_class_end,
  walk_back, build_chunk, chunk_file,
}
use architect.Codebase.Chunker.Chunks.{AreChunks, is_in_file, symbols, chunk_file-AreChunks}

abbrev source : Text
source =
    codes
      "import x\ndef f(\n    a,\n):\n    return a\n# c\nclass C:\n    def m(self):\n\n        pass\n\n"

abbrev index : FileIndex
index = record {
  path = codes "a.py";
  functions =
      record { name = codes "f"; line_number = 2 }
      ∷ record { name = codes "g"; line_number = 40 }
      ∷ [];
  classes =
      record {
        name = codes "C";
        line_number = 7;
        methods = record { name = codes "m"; line_number = 8 } ∷ [];
      }
      ∷ [];
}

-- A signature whose closing bracket stands at the margin ends the chunk of `f`, and the context of `f`
-- is the import above it.
chunks :
    chunk_file 512 source index
    ≡ record {
      file_path = codes "a.py";
      symbol_name = codes "f";
      symbol_kind = function_kind;
      line_number = 2;
      end_line = 3;
      source = codes "def f(\n    a,";
      context = codes "import x";
    }
      ∷ record {
        file_path = codes "a.py";
        symbol_name = codes "C";
        symbol_kind = class_kind;
        line_number = 7;
        end_line = 10;
        source = codes "class C:\n    def m(self):\n\n        pass";
        context = codes "# c";
      }
      ∷ record {
        file_path = codes "a.py";
        symbol_name = codes "C.m";
        symbol_kind = method_kind;
        line_number = 8;
        end_line = 10;
        source = codes "    def m(self):\n\n        pass";
        context = codes "class C:";
      }
      ∷ []
unfolding chunk_file build_chunk estimate_end_line estimate_class_end scan walk_back
    splitlines_keepends strip
chunks = refl

chunk_file-AreChunks_example :
    AreChunks 512
      (splitlines_keepends source)
      (codes "a.py")
      (filter (is_in_file 512 (splitlines_keepends source) (codes "a.py")) (symbols index))
      (chunk_file 512 source index)
chunk_file-AreChunks_example = chunk_file-AreChunks 512 source index
