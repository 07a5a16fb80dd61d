-- ===== src/CodingAgent/Coder.antt =====
-- How `CodeGenerator`, services/coding-agent/src/coding_agent/coder.py, reads files out of a model's
-- reply: the matches of its regular expression are the reply's code blocks, each a path with a content.
-- The scan for suspicious patterns only logs.
use architect.Common.{Bool, false, not, ◌||◌, List, [], ◌∷◌, ◌++◌, filter, if◌then◌else◌}
use architect.Common.Text.{Text, codes, text_beq, strip, lower, is_in}
use architect.CodingAgent.Models.{GeneratedFile}

abbrev has_seen : Text → List Text → Bool
has_seen p [] = false
has_seen p (q ∷ qs) = text_beq q p || has_seen p qs

abbrev generated : Text → Text → GeneratedFile
generated path content = record {
  path = path;
  content = content;
  is_test = is_in (codes "test") (lower path);
}

-- The files without that of a path that was seen.
abbrev deduplicated : Text → List Text → List GeneratedFile → List GeneratedFile
deduplicated path seen files =
    if has_seen path seen then filter (λ f. not (text_beq f.path path)) files else files

-- The loop of `_parse_files`.
unfoldable pub parse_blocks :
    List (Text × Text) → List Text → List GeneratedFile → List GeneratedFile
parse_blocks [] seen files = files
parse_blocks ((group, content) ∷ blocks) seen files =
    let path = strip group in
    parse_blocks blocks (path ∷ seen) (deduplicated path seen files ++ generated path content ∷ [])

unfoldable pub parse_files : List (Text × Text) → List GeneratedFile
unfolding parse_blocks
parse_files blocks = parse_blocks blocks [] []

-- `fixed_files if fixed_files else files`
abbrev pub or_files : List GeneratedFile → List GeneratedFile → List GeneratedFile
or_files [] files = files
or_files (f ∷ fs) files = f ∷ fs
