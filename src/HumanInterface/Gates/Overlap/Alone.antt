-- ===== src/HumanInterface/Gates/Overlap/Alone.antt =====
-- A vote (api/routes.py) that no other overlaps.
use architect.Common.Dict.{nat_eq}
use architect.Common.Text.{Text}
