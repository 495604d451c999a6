-- ===== src/RtspOutput/Takes.antt =====
-- `rtsp_client_write` of hmrtspsvr/src/rtsp/rtsp.c on a socket that takes at least a byte each time.
use hm_platform.Base.{
  ℕ, zero, suc, ◌+◌, ◌-◌, ◌≤◌, ◌≡◌, refl, sym, ap, ◌∙◌, min, List, [], ◌∷◌, ◌++◌, append-nil,
  Option, none, some, ltb, Bool, true, false, length, drop, arith, length-append, length-drop,
}
use hm_platform.RtspOutput.{
  RtspRec, RtspClient, RtspResult, rtsp_ok, SendAnswer, took, took_none, failed, Wrote, write_left,
  write_bytes, wrote_buffer, take_rec, all_written, ClientWrote, drain, rounds_from, write_rounds,
  close_write, client_write, after_round,
}
use hm_platform.RtspOutput.Stream.{queued_bytes, buffer_left, pending, stream}
use hm_platform.RtspOutput.Sends.{IsPrepared, Offset}
use hm_platform.RtspOutput.Drains.{client_write_lem}

abbrev pub AllTook : List SendAnswer → Type 0
AllTook [] = Unit
AllTook (took n ∷ answers) = AllTook answers
AllTook (took_none ∷ answers) = ⊥
AllTook (failed e ∷ answers) = ⊥

-- A write that came to its end, with enough answers left for `more` bytes.
record Ended (more : ℕ) (w : Wrote) : Type 0 where
  good : w.result ≡ rtsp_ok
  rest : AllTook w.answers
  enough : more ≤ length w.answers

write_left-Ended :
    (answers : List SendAnswer) (left idx err more : ℕ)
    → AllTook answers
    → left + more ≤ length answers
    → Ended more (write_left answers left idx err)
unfolding write_left
write_left-Ended answers zero idx err more taking enough = record {
  good = refl;
  rest = taking;
  enough = omega (arith, enough);
}
write_left-Ended [] (suc left) idx err more taking enough = absurd (omega (arith, enough))
write_left-Ended (took n ∷ answers) (suc left) idx err more taking enough =
    write_left-Ended answers (suc left - suc n) (idx + min (suc n) (suc left)) err more taking
      (omega (arith, enough))
write_left-Ended (took_none ∷ answers) (suc left) idx err more taking enough = absurd taking
write_left-Ended (failed e ∷ answers) (suc left) idx err more taking enough = absurd taking

write_bytes-Ended :
    (answers : List SendAnswer) (buffer : List ℕ) (idx err more : ℕ)
    → idx ≤ length buffer
    → AllTook answers
    → length buffer - idx + more ≤ length answers
    → Ended more (write_bytes answers buffer idx err)
unfolding write_bytes
write_bytes-Ended answers buffer idx err more inside taking enough =
    let rest = write_left-Ended answers (length buffer - idx) idx err more taking enough in
    let small : ltb (length buffer) idx ≡ false = ground (arith, inside) in
    record { good = rw small rest.good; rest = rw small rest.rest; enough = rw small rest.enough }

after_ok :
    (result : RtspResult) (c : RtspClient) (next : ClientWrote)
    → result ≡ rtsp_ok
    → after_round result c next ≡ next
after_ok result c next good = rw good refl

drain_all :
    (rs : List RtspRec) (answers : List SendAnswer) (c : RtspClient)
    → AllTook answers
    → length (queued_bytes rs) ≤ length answers
    → (drain rs answers c).ended ≡ all_written
unfolding drain
drain_all [] answers c taking enough = refl
drain_all (rec ∷ rest) answers c taking enough =
    let bytes = rec.data_bytes in
    let w = write_bytes answers bytes 0 c.err_code in
    let step =
      write_bytes-Ended answers bytes 0 c.err_code (length (queued_bytes rest)) (omega arith) taking
        (omega (arith, enough, length-append bytes (queued_bytes rest))) in
    let c1 = wrote_buffer (take_rec rec rest c) bytes w in
    let next = record c1 { write_buffer = none } in
    ap (λ r. r.ended) (after_ok w.result c1 (drain rest w.answers next) step.good)
    ∙ drain_all rest w.answers next step.rest step.enough

rounds_all :
    (answers : List SendAnswer) (c : RtspClient) (b : Option (List ℕ))
    → Offset b c.write_off
    → AllTook answers
    → length (buffer_left b c.write_off ++ queued_bytes c.output) ≤ length answers
    → (rounds_from answers c b).ended ≡ all_written
rounds_all answers c none inside taking enough = drain_all c.output answers c taking enough
rounds_all answers c (some buffer) inside taking enough =
    let w = write_bytes answers buffer c.write_off c.err_code in
    let step =
      write_bytes-Ended answers buffer c.write_off c.err_code (length (queued_bytes c.output))
        inside taking
        (omega (
          arith,
          enough,
          length-append (drop c.write_off buffer) (queued_bytes c.output),
          length-drop c.write_off buffer,
        )) in
    let c1 = wrote_buffer c buffer w in
    let next = record c1 { write_buffer = none } in
    ap (λ r. r.ended) (after_ok w.result c1 (drain c.output w.answers next) step.good)
    ∙ drain_all c.output w.answers next step.rest step.enough

-- What was to be sent is sent, the event stays, and it waits no longer for writing.
pub record AllSent (c : RtspClient) (r : Bool × RtspClient) : Type 0 where
  pub stays : r.0 ≡ true
  pub waits : r.1.wait_write ≡ false
  pub empty : pending r.1 ≡ []
  pub wire : r.1.wire ≡ stream c

close_all :
    (r : ClientWrote)
    → r.ended ≡ all_written
    → ((close_write r).0 ≡ true) × ((close_write r).1.wait_write ≡ false)
unfolding close_write
close_all r all = (rw all refl, rw all refl)

written_all :
    (answers : List SendAnswer) (c : RtspClient)
    → IsPrepared c
    → AllTook answers
    → length (pending c) ≤ length answers
    → ((client_write answers c).0 ≡ true) × ((client_write answers c).1.wait_write ≡ false)
unfolding client_write write_rounds
written_all answers c ready taking enough =
    close_all (write_rounds answers c)
      (rounds_all answers c c.write_buffer ready.offset taking enough)

-- A socket that takes at least a byte at each call, for as many calls as there are bytes to be sent, is
-- given all of them by one call of the event's callback; the event then waits no longer for writing.
pub client_write_all :
    (answers : List SendAnswer) (c : RtspClient)
    → IsPrepared c
    → AllTook answers
    → length (pending c) ≤ length answers
    → AllSent c (client_write answers c)
client_write_all answers c ready taking enough =
    let out = client_write_lem answers c ready in
    let (stays, waits) = written_all answers c ready taking enough in
    let empty = out.idle waits in
    record {
      stays = stays;
      waits = waits;
      empty = empty;
      wire =
          sym (append-nil (client_write answers c).1.wire)
          ∙ (ap (◌++◌ (client_write answers c).1.wire) (sym empty) ∙ out.same);
    }
