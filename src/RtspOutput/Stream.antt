-- ===== src/RtspOutput/Stream.antt =====
-- The bytes that are on their way to a client, and what a write makes of them:
-- hmrtspsvr/src/rtsp/rtsp.c.
use hm_platform.Base.{
  ℕ, zero, suc, ◌+◌, ◌-◌, ◌≤◌, ◌≡◌, sym, ap, ◌∙◌, min, List, [], ◌∷◌, ◌++◌, Option, none, some, ltb,
  ◌==◌, false, length, drop, arith, Bool-cases, inl, inr, take-append-drop, drop-drop, ◌≢◌,
}
use hm_platform.RtspOutput.{
  RtspRec, RtspClient, rtsp_ok, rtsp_error, SendAnswer, took, took_none, failed, Wrote, write_left,
  write_bytes, between,
}

-- The bytes of the records, the oldest first.
abbrev pub queued_bytes : List RtspRec → List ℕ
queued_bytes [] = []
queued_bytes (r ∷ rs) = r.data_bytes ++ queued_bytes rs

abbrev pub buffer_left : Option (List ℕ) → ℕ → List ℕ
buffer_left none off = []
buffer_left (some buffer) off = drop off buffer

-- What is still to be sent.
abbrev pub pending : RtspClient → List ℕ
pending c = buffer_left c.write_buffer c.write_off ++ queued_bytes c.output

-- All that was or will be sent.
abbrev pub stream : RtspClient → List ℕ
stream c = c.wire ++ pending c

-- What a write returns: it stops between the two ends, and it says so exactly when it is at the end.
pub record Stopped (from size : ℕ) (w : Wrote) : Type 0 where
  pub start : from ≤ w.idx
  pub inside : w.idx ≤ size
  pub done : w.result ≡ rtsp_ok → w.idx ≡ size
  pub sane : w.result ≢ rtsp_error

write_left-Stopped :
    (answers : List SendAnswer) (left idx err size : ℕ)
    → idx + left ≡ size
    → Stopped idx size (write_left answers left idx err)
unfolding write_left
write_left-Stopped answers zero idx err size at = record {
  start = omega arith;
  inside = omega (arith, at);
  done = λ _. omega (arith, at);
  sane = λ e. cc;
}
write_left-Stopped [] (suc left) idx err size at = record {
  start = omega arith;
  inside = omega (arith, at);
  done = λ e. cc;
  sane = λ e. cc;
}
write_left-Stopped (took n ∷ answers) (suc left) idx err size at =
    let rest =
      write_left-Stopped answers (suc left - suc n) (idx + min (suc n) (suc left)) err size
        (omega (arith, at)) in
    record {
      start = omega (arith, rest.start);
      inside = rest.inside;
      done = rest.done;
      sane = rest.sane;
    }
write_left-Stopped (took_none ∷ answers) (suc left) idx err size at = record {
  start = omega arith;
  inside = omega (arith, at);
  done = λ e. cc;
  sane = λ e. cc;
}
write_left-Stopped (failed e ∷ answers) (suc left) idx err size at = elim (Bool-cases (e == 11)) [
  | inl again ↦ record {
    start = rw again (omega arith);
    inside = rw again (omega (arith, at));
    done = rw again (λ f. cc);
    sane = rw again (λ f. cc);
  }
  | inr other ↦ elim (Bool-cases (e == 4)) [
    | inl once ↦
        let rest = write_left-Stopped answers (suc left) idx 0 size at in
        record {
          start = rw (other, once) rest.start;
          inside = rw (other, once) rest.inside;
          done = rw (other, once) rest.done;
          sane = rw (other, once) rest.sane;
        }
    | inr bad ↦ record {
      start = rw (other, bad) (omega arith);
      inside = rw (other, bad) (omega (arith, at));
      done = rw (other, bad) (λ f. cc);
      sane = rw (other, bad) (λ f. cc);
    }
  ]
]

pub write_bytes-Stopped :
    (answers : List SendAnswer) (buffer : List ℕ) (idx err : ℕ)
    → idx ≤ length buffer
    → Stopped idx (length buffer) (write_bytes answers buffer idx err)
unfolding write_bytes
write_bytes-Stopped answers buffer idx err le =
    let rest =
      write_left-Stopped answers (length buffer - idx) idx err (length buffer)
        (omega (arith, le)) in
    let small : ltb (length buffer) idx ≡ false = ground (arith, le) in
    record {
      start = rw small rest.start;
      inside = rw small rest.inside;
      done = rw small rest.done;
      sane = rw small rest.sane;
    }

-- The bytes from an index on are those up to a later one and those from it on.
pub between-drop :
    (buffer : List ℕ) (from to : ℕ)
    → from ≤ to
    → between buffer from to ++ drop to buffer ≡ drop from buffer
between-drop buffer from to le =
    ap (λ k. between buffer from to ++ drop k buffer) {y = from + (to - from)} (omega (arith, le))
    ∙ (ap (◌++◌ (between buffer from to)) (sym (drop-drop (to - from) from buffer))
        ∙ take-append-drop (to - from) (drop from buffer))
