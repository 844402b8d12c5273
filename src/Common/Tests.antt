-- ===== src/Common/Tests.antt =====
-- The theorems on the shared code at a concrete input.
use capi_net.Base.{arith, ℕ, List}
use capi_net.Base.Numerals.{codes}
use capi_net.Common.Process.{LastLines, Trimmed, tail_lines, tail_lines-last}

tail_lines-last_example :
    (body : List ℕ) × Trimmed (codes "a\nb\nc\n") body
    × LastLines 2 body (tail_lines (codes "a\nb\nc\n") 2)
tail_lines-last_example = tail_lines-last (codes "a\nb\nc\n") 2 (omega arith)
