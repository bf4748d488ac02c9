-- ===== src/CsRegisters/Driver/Pace.antt =====
-- How often the driver drives a transaction, what it drives, and that it ends the run.
use mathlib.Core.Path.{subst}
use coco_ibex.Common.{
  ℕ, zero, suc, ◌+◌, ◌-◌, ◌*◌, ◌≤◌, ◌≡◌, refl, sym, ap, ◌∙◌, arith, Bool, true, false, ◌==◌, ◌&&◌,
  leb, if◌then◌else◌,
}
use coco_ibex.CsRegisters.Model.{SimCtrl, request_stop}
use coco_ibex.CsRegisters.Driver.{
  Drawn, Driver, randomize_transaction, randomize, request_end, on_clock,
}

and_true : (b : Bool) → (b && true) ≡ b
and_true true = refl
and_true false = refl

kept : (b : Bool) (sc : SimCtrl) → (if b then request_stop true sc else sc).success ≡ sc.success
unfolding request_stop
kept true sc = and_true sc.success
kept false sc = refl

module _ {Engine : Type 0} (between : ℕ → ℕ → Engine → Drawn Engine) (word : Engine → Drawn Engine)
    (in_range : (lo hi : ℕ) (gen : Engine)
      → lo ≤ hi
      → (lo ≤ (between lo hi gen).value) × ((between lo hi gen).value ≤ hi)) where
  -- The driver after a number of clock edges, and the stop requests that it made at them.
  unfoldable drive : ℕ → Driver Engine → Driver Engine
  drive zero d = d
  drive (suc n) d = drive n (on_clock between word d)

  unfoldable pub signals : ℕ → Driver Engine → SimCtrl → SimCtrl
  signals zero d sc = sc
  signals (suc n) d sc = signals n (on_clock between word d) (request_end between word d sc)

  drive-drive : (m n : ℕ) (d : Driver Engine) → drive n (drive m d) ≡ drive (m + n) d
  unfolding drive
  drive-drive zero n d = let e : n ≡ 0 + n = omega arith in ap (λ (k : ℕ). drive k d) e
  drive-drive (suc m) n d =
      let e : suc m + n ≡ suc (m + n) = omega arith in
      rw e (drive-drive m n (on_clock between word d))

  -- The delay is within the bounds that it is drawn from.
  pub record IsReady (d : Driver Engine) : Type 0 where
    pub low : 1 ≤ d.delay
    pub high : d.delay ≤ 20

  randomize-IsReady : (d : Driver Engine) → IsReady (randomize between word d)
  unfolding randomize
  randomize-IsReady d =
      let gen = (randomize_transaction between word d.next_transaction d.generator).1 in
      let r = in_range 1 20 gen (omega arith) in record { low = r.0; high = r.1 }

  randomized :
      (d : Driver Engine)
      → (randomize between word d).transactions_driven + 1 ≡ d.transactions_driven + 1
  unfolding randomize
  randomized d = refl

  accessed : (d : Driver Engine) → (randomize between word d).reg_access ≡ true
  unfolding randomize
  accessed d = refl

  on_clock-wait :
      (d : Driver Engine) (j : ℕ)
      → d.delay ≡ suc (suc j)
      → on_clock between word d ≡ record d { delay = d.delay - 1; reg_access = false }
  unfolding on_clock
  on_clock-wait d j e = let test : (d.delay == 1) ≡ false = ground arith in rw test refl

  on_clock-randomize :
      (d : Driver Engine)
      → d.delay ≡ 1
      → on_clock between word d ≡ record (randomize between word d) {
        transactions_driven = (randomize between word d).transactions_driven + 1;
      }
  unfolding on_clock
  on_clock-randomize d e = let test : (d.delay == 1) ≡ true = ground arith in rw test refl

  -- One transaction more is driven, and the delay is drawn anew.
  Drove : ℕ → Driver Engine → Type 0
  Drove count d = (d.transactions_driven ≡ count + 1) × IsReady d × (d.reg_access ≡ true)

  -- One delay: as many edges as are left drive one transaction.
  one_delay :
      (j : ℕ) (d : Driver Engine) → d.delay ≡ suc j → Drove d.transactions_driven (drive (suc j) d)
  unfolding drive Drove
  one_delay zero d e =
      let ready = randomize-IsReady d in
      subst (λ (x : Driver Engine). Drove d.transactions_driven x) (sym (on_clock-randomize d e))
        (randomized d, record { low = ready.low; high = ready.high }, accessed d)
  one_delay (suc j) d e =
      subst (λ (x : Driver Engine). Drove d.transactions_driven (drive (suc j) x))
        (sym (on_clock-wait d j e))
        (one_delay j (record d { delay = d.delay - 1; reg_access = false }) (omega (arith, e)))

  -- Every `k` transactions take at most `20 * k` clock edges.
  drive_lem :
      (k : ℕ) (d : Driver Engine)
      → IsReady d
      → (n : ℕ) × (n ≤ 20 * k)
        × ((drive n d).transactions_driven ≡ d.transactions_driven + k)
        × IsReady (drive n d)
  unfolding drive Drove
  drive_lem zero d ready = (0, omega arith, omega arith, ready)
  drive_lem (suc k) d ready =
      let first = one_delay (d.delay - 1) d (omega (arith, ready.low)) in
      let same : suc (d.delay - 1) ≡ d.delay = omega (arith, ready.low) in
      let (n, le, count, next) = drive_lem k (drive (suc (d.delay - 1)) d) first.1 in
      let joined = drive-drive (suc (d.delay - 1)) n d in
      (
        suc (d.delay - 1) + n,
        omega (arith, le, same, ready.high),
        ap (λ (x : Driver Engine). x.transactions_driven) (sym joined)
            ∙ omega (arith, count, first.0),
        subst (λ (x : Driver Engine). IsReady x) joined next,
      )

  request_end-success :
      (d : Driver Engine) (sc : SimCtrl) → (request_end between word d sc).success ≡ sc.success
  unfolding request_end request_stop
  request_end-success d sc = kept (leb 10000 d.transactions_driven) sc

  signals-success :
      (n : ℕ) (d : Driver Engine) (sc : SimCtrl) → (signals n d sc).success ≡ sc.success
  unfolding signals
  signals-success zero d sc = refl
  signals-success (suc n) d sc =
      signals-success n (on_clock between word d) (request_end between word d sc)
      ∙ request_end-success d sc

  signals-stop :
      (n : ℕ) (d : Driver Engine) (sc : SimCtrl)
      → 10000 ≤ (drive n d).transactions_driven
      → (signals (suc n) d sc).stop_requested ≡ true
  unfolding signals drive request_end request_stop
  signals-stop zero d sc h =
      let test : leb 10000 d.transactions_driven ≡ true = ground arith in rw test refl
  signals-stop (suc n) d sc h =
      signals-stop n (on_clock between word d) (request_end between word d sc) h

  -- The driver ends the run by itself: within 200001 clock edges it has requested the stop, and its
  -- requests leave the verdict of the run as it was.
  pub signals_lem :
      (d : Driver Engine) (sc : SimCtrl)
      → d.transactions_driven ≡ 0
      → d.delay ≡ 1
      → (n : ℕ) × (n ≤ 200001)
        × ((signals n d sc).stop_requested ≡ true)
        × ((signals n d sc).success ≡ sc.success)
  signals_lem d sc start one =
      let (n, le, count, next) =
        drive_lem 10000 d (record { low = omega (arith, one); high = omega (arith, one) }) in
      (
        suc n,
        omega (arith, le),
        signals-stop n d sc (omega (arith, count, start)),
        signals-success (suc n) d sc,
      )
