-- ===== src/Node/Examples.antt =====
-- crates/hull-ci-node/src: the theorems about the capture at a small input.
use hull_ci.Base.{◌+◌, ◌≤◌, [], ◌∷◌, List, length}
use hull_ci.Node.Capture.{
  Bytes, OutputCaps, new_capture, count_newlines, finish, byte_slack, line_slack,
}
use hull_ci.Node.Capture.Inv.{Captures, push_all, concat, push_all-bounded, finish-Captures}

abbrev caps : OutputCaps
caps = record { max_bytes = 4; max_lines = 1 }

-- Three lines in two chunks.
abbrev chunks : List Bytes
chunks = (97 ∷ 10 ∷ 98 ∷ []) ∷ (10 ∷ 99 ∷ 10 ∷ []) ∷ []

push_all-bounded_run :
    let c = push_all (new_capture caps) chunks in
    (length c.buf ≤ 4 + byte_slack caps) × (c.lines ≤ 1 + line_slack caps)
push_all-bounded_run = push_all-bounded caps chunks

finish-Captures_example :
    let c = finish (push_all (new_capture caps) chunks) in
    Captures (concat chunks) c × (length c.buf ≤ 4) × (count_newlines c.buf ≤ 1)
finish-Captures_example = finish-Captures caps chunks
