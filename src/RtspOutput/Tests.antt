-- ===== src/RtspOutput/Tests.antt =====
-- A client with a record half sent and another in its queue: hmrtspsvr/src/rtsp/rtsp.c.
use hm_platform.Base.{◌≢◌, refl, [], ◌∷◌, none, some, true, false, arith}
use hm_platform.RtspOutput.{
  RtspClient, took, took_none, failed, write_data, client_write, close_write, would_block,
  rtsp_eintr, all_written,
}
use hm_platform.RtspOutput.Sends.{IsPrepared, DataSent, write_data_lem, would_block-write_data}
use hm_platform.RtspOutput.Drains.{ClientWritten, client_write_lem}
use hm_platform.RtspOutput.Takes.{AllSent, client_write_all}
use hm_platform.RtspOutput.Stalls.{Stalled, close_write-write_data}

abbrev half_sent : RtspClient
half_sent = record {
  output = record { data_bytes = 21 ∷ 22 ∷ []; id = 2 } ∷ [];
  write_buffer = some (11 ∷ 12 ∷ 13 ∷ []);
  write_off = 1;
  backlog = 2;
  rec_id = 2;
  err_code = 11;
  killed = false;
  wait_write = true;
  wire = 11 ∷ [];
}

abbrev at_rest : RtspClient
at_rest = record {
  output = [];
  write_buffer = none;
  write_off = 0;
  backlog = 0;
  rec_id = 0;
  err_code = 0;
  killed = false;
  wait_write = false;
  wire = [];
}

half_sent-IsPrepared : IsPrepared half_sent
half_sent-IsPrepared = record {
  backlog = refl;
  bounded = omega arith;
  offset = omega arith;
  armed = λ _. refl;
}

at_rest-IsPrepared : IsPrepared at_rest
at_rest-IsPrepared = record {
  backlog = refl;
  bounded = omega arith;
  offset = tt;
  armed = λ busy. absurd cc;
}

write_data_example :
    DataSent at_rest
      (7 ∷ 8 ∷ 9 ∷ [])
      (write_data (failed 4 ∷ took 0 ∷ took_none ∷ []) at_rest (7 ∷ 8 ∷ 9 ∷ []))
write_data_example =
    write_data_lem (failed 4 ∷ took 0 ∷ took_none ∷ []) at_rest (7 ∷ 8 ∷ 9 ∷ []) at_rest-IsPrepared
      (omega arith)

client_write_example :
    ClientWritten half_sent (client_write (took 9 ∷ took 0 ∷ failed 11 ∷ []) half_sent)
client_write_example =
    client_write_lem (took 9 ∷ took 0 ∷ failed 11 ∷ []) half_sent half_sent-IsPrepared

client_write_all_example :
    AllSent half_sent (client_write (took 0 ∷ took 5 ∷ took 0 ∷ took 0 ∷ []) half_sent)
client_write_all_example =
    client_write_all (took 0 ∷ took 5 ∷ took 0 ∷ took 0 ∷ []) half_sent half_sent-IsPrepared tt
      (omega arith)

stall_example :
    Stalled
      (5 ∷ [])
      (close_write
        (record { ended = all_written; client = (write_data [] at_rest (5 ∷ [])).client })).1
stall_example = close_write-write_data at_rest (5 ∷ []) at_rest-IsPrepared refl (omega arith)

would_block_example : (write_data [] half_sent (31 ∷ [])).result ≢ rtsp_eintr
unfolding would_block
would_block_example =
    would_block-write_data [] half_sent (31 ∷ []) half_sent-IsPrepared (omega arith) (omega arith)
      refl
