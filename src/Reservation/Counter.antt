-- ===== src/Reservation/Counter.antt =====
-- What reservations do to the counter of a strategy, by the documented behaviour of INCRBYFLOAT.
use oms_gateway.Prelude.{ℕ, ◌≡◌, ap, sym, ◌∙◌, false, arith}
use oms_gateway.Prelude.Result.{Result, ok, err, Error}
use oms_gateway.Text.{Text, is_empty}
use oms_gateway.Float.{Float, zero_float}
use oms_gateway.Reservation.{
  RedisClient, reservation_key, reserve_exposure, release_exposure, reservation_ttl_seconds,
}

module _ {F : Type 0} ⦃f : Float F⦄ {S : Type 0} (client : RedisClient F S) where
  open f use {add, neg, le}
  open client use {incrbyfloat, expire}

  -- INCRBYFLOAT that returns has added to the counter of its key, and returns the new value. EXPIRE
  -- does not change a counter. `value` reads the counter, zero for an absent key.
  pub record IsCounter (value : Text → S → F) : Type 0 where
    pub incr_result :
        (key : Text) (x : F) (s s' : S) (total : F)
        → incrbyfloat key x s ≡ (ok total, s')
        → (total ≡ add (value key s) x) × (value key s' ≡ total)
    pub expire_keeps :
        (key other : Text) (n : ℕ) (s : S) → value key (expire other n s).1 ≡ value key s

  -- Every command is served.
  pub record IsServed : Type 0 where
    pub incr_ok :
        (key : Text) (x : F) (s : S)
        → (total : F) × (s' : S) × (incrbyfloat key x s ≡ (ok total, s'))
    pub expire_ok : (key : Text) (n : ℕ) (s : S) → (s' : S) × (expire key n s ≡ (ok tt, s'))

  pub reserve-runs :
      (slug : Text) (n total : F) (s s' s'' : S)
      → is_empty slug ≡ false
      → le n zero_float ≡ false
      → incrbyfloat (reservation_key slug) n s ≡ (ok total, s')
      → expire (reservation_key slug) reservation_ttl_seconds s' ≡ (ok tt, s'')
      → reserve_exposure client slug n s ≡ (total, s'')
  unfolding reserve_exposure
  reserve-runs slug n total s s' s'' filled above e x = ground arith

  pub reserve-fails :
      (slug : Text) (n : F) (why : Error) (s s' : S)
      → is_empty slug ≡ false
      → le n zero_float ≡ false
      → incrbyfloat (reservation_key slug) n s ≡ (err why, s')
      → reserve_exposure client slug n s ≡ (zero_float, s')
  unfolding reserve_exposure
  reserve-fails slug n why s s' filled above e = ground arith

  pub release-runs :
      (slug : Text) (n back : F) (s s' : S)
      → is_empty slug ≡ false
      → le n zero_float ≡ false
      → incrbyfloat (reservation_key slug) (neg n) s ≡ (ok back, s')
      → release_exposure client slug n s ≡ s'
  unfolding release_exposure
  release-runs slug n back s s' filled above e = ground arith

  module _ (value : Text → S → F) (laws : IsCounter value) where
    open laws use {incr_result, expire_keeps}

    -- For a named strategy and a notional above zero, a reservation whose INCRBYFLOAT and EXPIRE
    -- succeed adds the notional to the strategy's counter and returns the new total.
    pub reserve_exposure-total :
        (slug : Text) (n total : F) (s s' s'' : S)
        → is_empty slug ≡ false
        → le n zero_float ≡ false
        → incrbyfloat (reservation_key slug) n s ≡ (ok total, s')
        → expire (reservation_key slug) reservation_ttl_seconds s' ≡ (ok tt, s'')
        → (reserve_exposure client slug n s ≡ (total, s''))
          × (total ≡ add (value (reservation_key slug) s) n)
          × (value (reservation_key slug) s'' ≡ total)
    reserve_exposure-total slug n total s s' s'' filled above e x =
        let (added, now) = incr_result (reservation_key slug) n s s' total e in
        (
          reserve-runs slug n total s s' s'' filled above e x,
          added,
          ap (λ (p : Result (Unit {0}) × S). value (reservation_key slug) p.1) (sym x)
              ∙ expire_keeps (reservation_key slug) (reservation_key slug) reservation_ttl_seconds
                  s'
              ∙ now,
        )

    -- Where adding and taking away the notional is exact, a release that succeeds after a
    -- reservation that succeeds restores the strategy's counter.
    pub release-reserve :
        (slug : Text) (n total back : F) (s s' s'' s''' : S)
        → is_empty slug ≡ false
        → le n zero_float ≡ false
        → incrbyfloat (reservation_key slug) n s ≡ (ok total, s')
        → expire (reservation_key slug) reservation_ttl_seconds s' ≡ (ok tt, s'')
        → incrbyfloat (reservation_key slug) (neg n) s'' ≡ (ok back, s''')
        → add (add (value (reservation_key slug) s) n) (neg n) ≡ value (reservation_key slug) s
        → value
            (reservation_key slug)
            (release_exposure client slug n (reserve_exposure client slug n s).1)
          ≡ value (reservation_key slug) s
    release-reserve slug n total back s s' s'' s''' filled above e x b exact =
        let reserved = reserve-runs slug n total s s' s'' filled above e x in
        let (taken, now) = incr_result (reservation_key slug) (neg n) s'' s''' back b in
        let (_, added, holds) = reserve_exposure-total slug n total s s' s'' filled above e x in
        rw reserved (
          rw (release-runs slug n back s'' s''' filled above b)
            (now ∙ taken ∙ rw (holds, added) exact))

    module _ (served : IsServed) (slug : Text) (n : F) (s : S) (filled : is_empty slug ≡ false)
        (above : le n zero_float ≡ false) where
      open served use {incr_ok, expire_ok}

      -- The total that a served reservation returns, and the counter after it.
      pub reserve_exposure-adds :
          ((reserve_exposure client slug n s).0 ≡ add (value (reservation_key slug) s) n)
          × (value (reservation_key slug) (reserve_exposure client slug n s).1
              ≡ (reserve_exposure client slug n s).0)
      reserve_exposure-adds =
          let (total, s', e) = incr_ok (reservation_key slug) n s in
          let (s'', x) = expire_ok (reservation_key slug) reservation_ttl_seconds s' in
          let (run, added, holds) = reserve_exposure-total slug n total s s' s'' filled above e x in
          rw run (added, holds)

      -- The counter after a served release.
      pub release_exposure-takes :
          value (reservation_key slug) (release_exposure client slug n s)
          ≡ add (value (reservation_key slug) s) (neg n)
      release_exposure-takes =
          let (back, s', e) = incr_ok (reservation_key slug) (neg n) s in
          let (taken, now) = incr_result (reservation_key slug) (neg n) s s' back e in
          rw (release-runs slug n back s s' filled above e) (now ∙ taken)
