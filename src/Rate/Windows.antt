-- ===== src/Rate/Windows.antt =====
-- The counters of src/rate.c after a row of packets and ticks, against the traffic that the row has
-- in each window between two ticks.
use netproc.Base.{
  ℕ, zero, suc, ◌+◌, ◌^◌, ◌≤◌, ◌<◌, ◌≡◌, refl, ap, ◌∙◌, List, [], ◌∷◌, arith, length-set, set,
  add64, u64_mod, replicate, take,
}
use netproc.Types.{NetStat}
use netproc.Rate.{
  update_id_buff, add_sample, rate_add_rx, rate_add_tx, clear_samples, clear_process,
}
use netproc.Rate.Slots.{IsRing, history, history-add_sample, history-update}

pub data Way : Type 0 where
  rx : Way
  tx : Way

-- A packet that is counted, or a call of `rate_update`.
pub data Event : Type 0 where
  moved : Way → ℕ → Event
  tick : Event

-- A process as `calloc` makes it.
abbrev pub start : NetStat
start = record {
  pps_rx = replicate 5 0;
  pps_tx = replicate 5 0;
  bps_rx = replicate 5 0;
  bps_tx = replicate 5 0;
  avg_bps_rx = 0;
  avg_bps_tx = 0;
  avg_pps_rx = 0;
  avg_pps_tx = 0;
  tot_bps_rx = 0;
  tot_bps_tx = 0;
  bytes_last_sec_rx = 0;
  bytes_last_sec_tx = 0;
}

-- What the code does, with `idx_cir` beside the counters.
abbrev pub step : Event → ℕ × NetStat → ℕ × NetStat
step (moved rx n) (idx, ns) = (idx, rate_add_rx idx ns n)
step (moved tx n) (idx, ns) = (idx, rate_add_tx idx ns n)
step tick (idx, ns) = (update_id_buff idx, clear_process (update_id_buff idx) ns)

-- The last event first.
abbrev pub run : List Event → ℕ × NetStat
run [] = (0, start)
run (e ∷ es) = step e (run es)

-- A measure of a packet: its bytes or 1, one way.
abbrev pub bytes_rx : Way → ℕ → ℕ
bytes_rx rx n = n
bytes_rx tx n = 0

abbrev pub bytes_tx : Way → ℕ → ℕ
bytes_tx rx n = 0
bytes_tx tx n = n

abbrev pub packets_rx : Way → ℕ → ℕ
packets_rx rx n = 1
packets_rx tx n = 0

abbrev pub packets_tx : Way → ℕ → ℕ
packets_tx rx n = 0
packets_tx tx n = 1

-- The traffic of the window that was current `j` ticks ago.
abbrev pub window : (Way → ℕ → ℕ) → List Event → ℕ → ℕ
window m [] j = 0
window m (tick ∷ es) zero = 0
window m (tick ∷ es) (suc j) = window m es j
window m (moved w n ∷ es) zero = window m es 0 + m w n
window m (moved w n ∷ es) (suc j) = window m es (suc j)

abbrev pub total : (Way → ℕ → ℕ) → List Event → ℕ
total m [] = 0
total m (tick ∷ es) = total m es
total m (moved w n ∷ es) = total m es + m w n

pub window-le : (m : Way → ℕ → ℕ) (es : List Event) (j : ℕ) → window m es j ≤ total m es
window-le m [] j = omega arith
window-le m (tick ∷ es) zero = omega arith
window-le m (tick ∷ es) (suc j) = window-le m es j
window-le m (moved w n ∷ es) zero = omega (arith, window-le m es 0)
window-le m (moved w n ∷ es) (suc j) = omega (arith, window-le m es (suc j))

abbrev pub windows : (Way → ℕ → ℕ) → List Event → List ℕ
windows m es = window m es 0 ∷ window m es 1 ∷ window m es 2 ∷ window m es 3 ∷ window m es 4 ∷ []

-- The samples are those of the last five windows.
pub record Sampled (m : Way → ℕ → ℕ) (es : List Event) (idx : ℕ) (xs : List ℕ) : Type 0 where
  pub ring : IsRing idx xs
  pub held : history idx xs ≡ windows m es

abbrev bump : ℕ → List ℕ → List ℕ
bump n [] = []
bump n (x ∷ xs) = add64 x n ∷ xs

Sampled-moved :
    {m : Way → ℕ → ℕ} {es : List Event} {idx : ℕ} {xs : List ℕ} (w : Way) (n : ℕ)
    → total m (moved w n ∷ es) < u64_mod
    → Sampled m es idx xs
    → Sampled m (moved w n ∷ es) idx (add_sample xs idx (m w n))
Sampled-moved {m} {es} {idx} {xs} w n small s = record {
  ring = record { five = length-set xs idx _ ∙ s.ring.five; within = s.ring.within };
  held =
      history-add_sample idx xs (m w n) s.ring
      ∙ (ap (bump (m w n)) s.held
          ∙ ap (λ k. k ∷ window m es 1 ∷ window m es 2 ∷ window m es 3 ∷ window m es 4 ∷ [])
              (omega (arith, small, window-le m es 0)));
}

Sampled-idle :
    {m : Way → ℕ → ℕ} {es : List Event} {idx : ℕ} {xs : List ℕ} (w : Way) (n : ℕ)
    → m w n ≡ 0
    → Sampled m es idx xs
    → Sampled m (moved w n ∷ es) idx xs
Sampled-idle {m} {es} w n none s = record {
  ring = s.ring;
  held =
      s.held
      ∙ ap (λ k. k ∷ window m es 1 ∷ window m es 2 ∷ window m es 3 ∷ window m es 4 ∷ [])
          (omega arith);
}

Sampled-tick :
    {m : Way → ℕ → ℕ} {es : List Event} {idx : ℕ} {xs : List ℕ}
    → Sampled m es idx xs
    → Sampled m (tick ∷ es) (update_id_buff idx) (set xs (update_id_buff idx) 0)
Sampled-tick {m} {es} {idx} {xs} s = record {
  ring = record { five = length-set xs (update_id_buff idx) 0 ∙ s.ring.five; within = omega arith };
  held = history-update idx xs s.ring ∙ ap (λ k. 0 ∷ take 4 k) s.held;
}

-- What the counters of a process say after the events, with the averages not yet computed.
pub record Counts (es : List Event) (idx : ℕ) (ns : NetStat) : Type 0 where
  pub bps_rx : Sampled bytes_rx es idx ns.bps_rx
  pub bps_tx : Sampled bytes_tx es idx ns.bps_tx
  pub pps_rx : Sampled packets_rx es idx ns.pps_rx
  pub pps_tx : Sampled packets_tx es idx ns.pps_tx
  pub tot_bps_rx : ns.tot_bps_rx ≡ total bytes_rx es
  pub tot_bps_tx : ns.tot_bps_tx ≡ total bytes_tx es
  pub bytes_last_sec_rx : ns.bytes_last_sec_rx ≡ window bytes_rx es 0
  pub bytes_last_sec_tx : ns.bytes_last_sec_tx ≡ window bytes_tx es 0

-- No counter wraps round, and nor does the sum of five windows in bits.
pub record Small (es : List Event) : Type 0 where
  pub bytes_rx : total bytes_rx es < 2 ^ 58
  pub bytes_tx : total bytes_tx es < 2 ^ 58
  pub packets_rx : total packets_rx es < 2 ^ 58
  pub packets_tx : total packets_tx es < 2 ^ 58

start-Sampled : (m : Way → ℕ → ℕ) → Sampled m [] 0 (replicate 5 0)
start-Sampled m = record { ring = record { five = refl; within = omega arith }; held = refl }

Small-rest : (e : Event) (es : List Event) → Small (e ∷ es) → Small es
Small-rest tick es s = record {
  bytes_rx = s.bytes_rx;
  bytes_tx = s.bytes_tx;
  packets_rx = s.packets_rx;
  packets_tx = s.packets_tx;
}
Small-rest (moved w n) es s = record {
  bytes_rx = omega (arith, s.bytes_rx);
  bytes_tx = omega (arith, s.bytes_tx);
  packets_rx = omega (arith, s.packets_rx);
  packets_tx = omega (arith, s.packets_tx);
}

-- After any events the ring holds the traffic of the last five windows, the totals hold that of all
-- of them, and the counters of the last second that of the current window, while the totals stay
-- below 2 ^ 58.
pub run-Counts : (es : List Event) → Small es → Counts es (run es).0 (run es).1
unfolding rate_add_rx rate_add_tx clear_process clear_samples
run-Counts [] small = record {
  bps_rx = start-Sampled bytes_rx;
  bps_tx = start-Sampled bytes_tx;
  pps_rx = start-Sampled packets_rx;
  pps_tx = start-Sampled packets_tx;
  tot_bps_rx = refl;
  tot_bps_tx = refl;
  bytes_last_sec_rx = refl;
  bytes_last_sec_tx = refl;
}
run-Counts (tick ∷ es) small =
    let c = run-Counts es (Small-rest tick es small) in
    record {
      bps_rx = Sampled-tick c.bps_rx;
      bps_tx = Sampled-tick c.bps_tx;
      pps_rx = Sampled-tick c.pps_rx;
      pps_tx = Sampled-tick c.pps_tx;
      tot_bps_rx = c.tot_bps_rx;
      tot_bps_tx = c.tot_bps_tx;
      bytes_last_sec_rx = refl;
      bytes_last_sec_tx = refl;
    }
run-Counts (moved rx n ∷ es) small =
    let c = run-Counts es (Small-rest (moved rx n) es small) in
    record {
      bps_rx = Sampled-moved rx n (omega (arith, small.bytes_rx)) c.bps_rx;
      bps_tx = Sampled-idle rx n refl c.bps_tx;
      pps_rx = Sampled-moved rx n (omega (arith, small.packets_rx)) c.pps_rx;
      pps_tx = Sampled-idle rx n refl c.pps_tx;
      tot_bps_rx = omega (arith, c.tot_bps_rx, small.bytes_rx);
      tot_bps_tx = omega (arith, c.tot_bps_tx);
      bytes_last_sec_rx =
          omega (arith, c.bytes_last_sec_rx, small.bytes_rx, window-le bytes_rx es 0);
      bytes_last_sec_tx = omega (arith, c.bytes_last_sec_tx);
    }
run-Counts (moved tx n ∷ es) small =
    let c = run-Counts es (Small-rest (moved tx n) es small) in
    record {
      bps_rx = Sampled-idle tx n refl c.bps_rx;
      bps_tx = Sampled-moved tx n (omega (arith, small.bytes_tx)) c.bps_tx;
      pps_rx = Sampled-idle tx n refl c.pps_rx;
      pps_tx = Sampled-moved tx n (omega (arith, small.packets_tx)) c.pps_tx;
      tot_bps_rx = omega (arith, c.tot_bps_rx);
      tot_bps_tx = omega (arith, c.tot_bps_tx, small.bytes_tx);
      bytes_last_sec_rx = omega (arith, c.bytes_last_sec_rx);
      bytes_last_sec_tx =
          omega (arith, c.bytes_last_sec_tx, small.bytes_tx, window-le bytes_tx es 0);
    }
