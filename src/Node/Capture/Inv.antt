-- ===== src/Node/Capture/Inv.antt =====
-- crates/hull-ci-node/src/capture.rs: what a capture keeps of what it was given.
use hull_ci.Base.{
  ℕ, ◌+◌, ◌≤◌, ◌≡◌, refl, true, false, List, [], ◌∷◌, ◌++◌, length, length-append, take, drop, ◌==◌,
  arith, Bool-cases, inl, inr, ap, ◌∙◌, sym, subst,
}
use hull_ci.Node.Capture.{
  Bytes, OutputCaps, OutputCapture, new_capture, count_newlines, cut_of, drop_front, trim, appended,
  is_over, push, finish, byte_slack, line_slack,
}
use hull_ci.Node.Capture.Cut.{Fits, cut_of-Fits, take-drop, length-take, count_newlines-append}

-- A capture of `input`: the buffer is the end of it, and the counters say what is missing before that.
pub record Captures (input : Bytes) (c : OutputCapture) : Type 0 where
  pub gone : Bytes
  pub whole : input ≡ gone ++ c.buf
  pub bytes : c.dropped_bytes ≡ length gone
  pub lines_gone : c.dropped_lines ≡ count_newlines gone
  pub lines : c.lines ≡ count_newlines c.buf

new_capture-Captures : (caps : OutputCaps) → Captures [] (new_capture caps)
unfolding count_newlines
new_capture-Captures caps = record {
  gone = [];
  whole = refl;
  bytes = refl;
  lines_gone = refl;
  lines = refl;
}

append_assoc : (xs ys zs : Bytes) → (xs ++ ys) ++ zs ≡ xs ++ (ys ++ zs)
append_assoc [] ys zs = refl
append_assoc (x ∷ xs) ys zs = ap (λ (us : Bytes). x ∷ us) (append_assoc xs ys zs)

appended-Captures :
    (input chunk : Bytes) (c : OutputCapture)
    → Captures input c
    → Captures (input ++ chunk) (appended c chunk)
unfolding appended
appended-Captures input chunk c v = record {
  gone = v.gone;
  whole = ap (λ us. us ++ chunk) v.whole ∙ append_assoc v.gone c.buf chunk;
  bytes = v.bytes;
  lines_gone = v.lines_gone;
  lines = omega (arith, v.lines, count_newlines-append c.buf chunk);
}

drop_front-Captures :
    (cut : ℕ) (input : Bytes) (c : OutputCapture)
    → cut ≤ length c.buf
    → Captures input c
    → Captures input (drop_front cut c)
unfolding drop_front
drop_front-Captures cut input c h v = elim (Bool-cases (cut == 0)) [
  | inl e ↦ rw e v
  | inr e ↦
      let parts = take-drop cut c.buf in
      let split = count_newlines-append (take cut c.buf) (drop cut c.buf) in
      rw e (record {
        gone = v.gone ++ take cut c.buf;
        whole =
            v.whole
            ∙ ap (λ us. v.gone ++ us) (sym parts)
            ∙ sym (append_assoc v.gone (take cut c.buf) (drop cut c.buf));
        bytes =
            omega (arith, v.bytes, length-append v.gone (take cut c.buf), length-take cut c.buf h);
        lines_gone = omega (arith, v.lines_gone, count_newlines-append v.gone (take cut c.buf));
        lines = omega (arith, v.lines, ap count_newlines parts, split);
      })
]

trim-Captures : (input : Bytes) (c : OutputCapture) → Captures input c → Captures input (trim c)
unfolding trim
trim-Captures input c v =
    drop_front-Captures (cut_of c.caps c.buf) input c (cut_of-Fits c.caps c.buf).within v

push-Captures :
    (input chunk : Bytes) (c : OutputCapture)
    → Captures input c
    → Captures (input ++ chunk) (push c chunk)
unfolding push
push-Captures input chunk c v = elim (Bool-cases (is_over (appended c chunk))) [
  | inl over ↦ rw over (trim-Captures _ _ (appended-Captures input chunk c v))
  | inr under ↦ rw under (appended-Captures input chunk c v)
]

is_zero : (n : ℕ) → (n == 0) ≡ true → n ≡ 0
is_zero n h = ground arith

-- The buffer after a trim is within the caps.
trim-within :
    (c : OutputCapture)
    → (length (trim c).buf ≤ c.caps.max_bytes)
      × (count_newlines (trim c).buf ≤ c.caps.max_lines)
      × ((trim c).caps ≡ c.caps)
unfolding trim drop_front
trim-within c =
    let f = cut_of-Fits c.caps c.buf in
    elim (Bool-cases (cut_of c.caps c.buf == 0)) [
      | inl e ↦ let g = subst (Fits c.caps c.buf) (is_zero _ e) f in rw e (g.bytes, g.lines, refl)
      | inr e ↦ rw e (f.bytes, f.lines, refl)
    ]

-- Everything that is pushed.
unfoldable pub push_all : OutputCapture → List Bytes → OutputCapture
push_all c [] = c
push_all c (chunk ∷ chunks) = push_all (push c chunk) chunks

unfoldable pub concat : List Bytes → Bytes
concat [] = []
concat (chunk ∷ chunks) = chunk ++ concat chunks

-- A capture of `input` that is within its caps and the slack.
record Running (caps : OutputCaps) (input : Bytes) (c : OutputCapture) : Type 0 where
  captures : Captures input c
  same_caps : c.caps ≡ caps
  few_bytes : length c.buf ≤ caps.max_bytes + byte_slack caps
  few_lines : c.lines ≤ caps.max_lines + line_slack caps

bytes_to : {a b c : ℕ} → a ≤ b → b ≡ c → a ≤ c
bytes_to h e = omega arith

not_over :
    (d : OutputCapture)
    → is_over d ≡ false
    → (length d.buf ≤ d.caps.max_bytes + byte_slack d.caps)
      × (d.lines ≤ d.caps.max_lines + line_slack d.caps)
not_over d h = ground arith

push-Running :
    (caps : OutputCaps) (input chunk : Bytes) (c : OutputCapture)
    → Running caps input c
    → Running caps (input ++ chunk) (push c chunk)
unfolding push appended
push-Running caps input chunk c v =
    let d = appended c chunk in
    let whole = appended-Captures input chunk c v.captures in
    let max_same = ap (λ (cs : OutputCaps). cs.max_bytes) v.same_caps in
    let lines_same = ap (λ (cs : OutputCaps). cs.max_lines) v.same_caps in
    elim (Bool-cases (is_over d)) [
      | inl over ↦
          let (bytes, lines, same) = trim-within d in
          let w = trim-Captures _ d whole in
          let same_caps = same ∙ v.same_caps in
          rw over (record {
            captures = w;
            same_caps = same_caps;
            few_bytes = omega (arith, bytes, max_same);
            few_lines = omega (arith, w.lines, lines, lines_same);
          })
      | inr under ↦
          let (bytes, lines) = not_over d under in
          rw under (record {
            captures = whole;
            same_caps = v.same_caps;
            few_bytes = bytes_to bytes (ap (λ cs. cs.max_bytes + byte_slack cs) v.same_caps);
            few_lines = bytes_to lines (ap (λ cs. cs.max_lines + line_slack cs) v.same_caps);
          })
    ]

append_nil : (xs : Bytes) → xs ++ [] ≡ xs
append_nil [] = refl
append_nil (x ∷ xs) = ap (λ (us : Bytes). x ∷ us) (append_nil xs)

push_all-Running :
    (caps : OutputCaps) (input : Bytes) (c : OutputCapture) (chunks : List Bytes)
    → Running caps input c
    → Running caps (input ++ concat chunks) (push_all c chunks)
unfolding push_all concat
push_all-Running caps input c [] v = rw (append_nil input) v
push_all-Running caps input c (chunk ∷ chunks) v = rw (← append_assoc input chunk (concat chunks)) (
    push_all-Running caps (input ++ chunk) (push c chunk) chunks
      (push-Running caps input chunk c v))

new_capture-Running : (caps : OutputCaps) → Running caps [] (new_capture caps)
new_capture-Running caps = record {
  captures = new_capture-Captures caps;
  same_caps = refl;
  few_bytes = omega arith;
  few_lines = omega arith;
}

-- However the output of a step is cut into chunks, a running capture holds at most its caps and the
-- slack.
pub push_all-bounded :
    (caps : OutputCaps) (chunks : List Bytes)
    → let c = push_all (new_capture caps) chunks in
      (length c.buf ≤ caps.max_bytes + byte_slack caps)
      × (c.lines ≤ caps.max_lines + line_slack caps)
push_all-bounded caps chunks =
    let v = push_all-Running caps [] (new_capture caps) chunks (new_capture-Running caps) in
    (v.few_bytes, v.few_lines)

-- However the output of a step is cut into chunks, the finished capture is within both caps, it is an
-- end of the output, and its counters are the bytes and the newlines of what is missing before it.
pub finish-Captures :
    (caps : OutputCaps) (chunks : List Bytes)
    → let c = finish (push_all (new_capture caps) chunks) in
      Captures (concat chunks) c
      × (length c.buf ≤ caps.max_bytes)
      × (count_newlines c.buf ≤ caps.max_lines)
unfolding finish
finish-Captures caps chunks =
    let c = push_all (new_capture caps) chunks in
    let v = push_all-Running caps [] (new_capture caps) chunks (new_capture-Running caps) in
    let (bytes, lines, same) = trim-within c in
    (
      trim-Captures (concat chunks) c v.captures,
      bytes_to bytes (ap (λ (cs : OutputCaps). cs.max_bytes) v.same_caps),
      bytes_to lines (ap (λ (cs : OutputCaps). cs.max_lines) v.same_caps),
    )
