-- ===== src/Impl/Connect/Opening.antt =====
-- A library that opens the connection within the time that is allowed, and what a look at the state
-- finds while it does.
use net_way.Prelude.{
  ℕ, suc, ◌+◌, ◌-◌, ◌*◌, ◌≤◌, ◌≡◌, refl, ap, sym, Bool, true, false, ==_iff, [], All, arith, subst,
  if◌then◌else◌,
}
use net_way.RichError.{ok}
use net_way.Sdk.{Sdk}
use net_way.Impl.{
  State, get_effective_stop_signal, call, call_run_iterate, deliver, is_healthy_cached,
  update_bad_status_time, now_ms_impl, triple_ready, try_publish_if_unchanged,
}
use net_way.Impl.Calm.{IsCalm, GoesOn, deliver-GoesOn, publish-GoesOn}
use net_way.Impl.Connected.{refresh, note_status, is_connected}
use net_way.Impl.Connected.Publish.{Fits, callbacks, refresh_publishes}

third_way :
    {A : Type 0} {a b : Bool} (x y z : A)
    → a ≡ false
    → b ≡ true
    → (if a then x else if b then y else z) ≡ y
third_way x y z p q = rw (p, q) refl

module _ {W : Type 0} (sdk : Sdk W) where
  -- A look at the state of a client that may go on asks the library.
  pub looks :
      (s : State W)
      → GoesOn s.impl
      → let s1 = refresh sdk 50 s in
        is_connected sdk 50 s ≡ (ok (is_healthy_cached sdk s1.impl), s1)
  unfolding is_connected
  looks s g = third_way _ _ _ g.0 g.1

  -- A library that opens a connection in steps: once the call is accepted, `phase` counts the
  -- iterations that are still needed, at most `n + 1`; where it is larger nothing is being opened;
  -- `ms` and `ns` are the two clocks, and a call takes at most `d` milliseconds of the one and `e`
  -- nanoseconds of the other. Nobody gives up or shuts down meanwhile.
  module _ (phase ms ns : W → ℕ) (d e : ℕ) where
    pub record Lasts (w v : W) : Type 0 where
      pub short_ms : ms v ≤ ms w + d
      pub short_ns : ns v ≤ ns w + e

    pub record Opens (n : ℕ) : Type 0 where
      pub accepts : (w : W) → sdk.is_good (sdk.connect_async w).value ≡ true
      pub accepted_calmly : (w : W) → All IsCalm (sdk.connect_async w).events
      pub begins : (w : W) → phase (sdk.connect_async w).world ≤ suc n
      pub iterates : (w : W) → phase w ≤ suc n → phase (sdk.run_iterate 50 w).world ≤ phase w - 1
      pub iterated_calmly : (w : W) → All IsCalm (sdk.run_iterate 50 w).events
      pub iterate_lasts : (w : W) → Lasts w (sdk.run_iterate 50 w).world
      pub asked_quietly : (w : W) → (sdk.get_state w).events ≡ []
      pub state_keeps : (w : W) → phase (sdk.get_state w).world ≤ phase w
      pub state_lasts : (w : W) → Lasts w (sdk.get_state w).world
      pub fits : (w : W) → Fits (sdk.get_state w).value
      pub good : (w : W) → phase w ≡ 0 → sdk.is_good (sdk.get_state w).value.status ≡ true
      pub open_channel : (w : W) → phase w ≡ 0 → (sdk.get_state w).value.channel ≡ sdk.channel_open
      pub activated :
          (w : W) → phase w ≡ 0 → (sdk.get_state w).value.session ≡ sdk.session_activated
      pub shows_ms : (w : W) → (sdk.now_ms w).0 ≡ ms w
      pub now_keeps : (w : W) → phase (sdk.now_ms w).1 ≤ phase w
      pub now_lasts : (w : W) → Lasts w (sdk.now_ms w).1
      pub shows_ns : (w : W) → (sdk.wall_ns w).0 ≡ ns w
      pub wall_keeps : (w : W) → phase (sdk.wall_ns w).1 ≤ phase w
      pub wall_lasts : (w : W) → Lasts w (sdk.wall_ns w).1

    module _ (n : ℕ) (o : Opens n) where
      -- What a look at the state takes and leaves.
      pub record Looked (s t : State W) : Type 0 where
        pub fewer : phase t.world ≤ phase s.world - 1
        pub in_ms : ms t.world ≤ ms s.world + 3 * d
        pub in_ns : ns t.world ≤ ns s.world + 3 * e
        pub goes_on : GoesOn t.impl

      -- The bookkeeping after the library was asked.
      note-Looked :
          (st : ℕ) (s t : State W)
          → GoesOn t.impl
          → phase t.world ≤ phase s.world - 1
          → ms t.world ≤ ms s.world + 2 * d
          → ns t.world ≤ ns s.world + 2 * e
          → Looked s (note_status sdk st t)
      unfolding note_status update_bad_status_time now_ms_impl get_effective_stop_signal
      note-Looked st s t g p a b = ground (arith, o.now_lasts t.world, o.now_keeps t.world)

      pub refresh-Looked :
          (s : State W) → phase s.world ≤ suc n → GoesOn s.impl → Looked s (refresh sdk 50 s)
      unfolding refresh call call_run_iterate
      refresh-Looked s near g =
          let r = sdk.run_iterate 50 s.world in
          let s1 : State W = record { impl = deliver r.events s.impl; world = r.world } in
          let a = sdk.get_state r.world in
          let s2 : State W = record { impl = deliver a.events s1.impl; world = a.world } in
          let p =
            try_publish_if_unchanged s1.state_packed a.value.status a.value.channel a.value.session
              s2.impl in
          let goes1 = deliver-GoesOn r.events s.impl (o.iterated_calmly s.world) g in
          let goes2 =
            subst (λ es. GoesOn (deliver es s1.impl)) (sym (o.asked_quietly r.world)) goes1 in
          note-Looked a.value.status s (record s2 { impl = p.1 })
            (publish-GoesOn s1.state_packed a.value.status a.value.channel a.value.session s2.impl
              goes2)
            (omega (arith, o.iterates s.world near, o.state_keeps r.world))
            (omega (arith, (o.iterate_lasts s.world).short_ms, (o.state_lasts r.world).short_ms))
            (omega (arith, (o.iterate_lasts s.world).short_ns, (o.state_lasts r.world).short_ns))

      -- In the last phase the look finds the connection open.
      pub refresh-ready :
          (s : State W) → phase s.world ≤ 1 → triple_ready sdk (refresh sdk 50 s).impl ≡ true
      unfolding triple_ready call_run_iterate call
      refresh-ready s h =
          let v = (sdk.run_iterate 50 s.world).world in
          let there : phase v ≡ 0 = omega (arith, o.iterates s.world (omega arith)) in
          let u = (refresh_publishes sdk 50 s).0 (ap callbacks (o.asked_quietly v)) (o.fits v) in
          rw
            (
              u,
              o.good v there,
              (==_iff (sdk.get_state v).value.channel sdk.channel_open).1 (o.open_channel v there),
              (==_iff (sdk.get_state v).value.session sdk.session_activated).1
                  (o.activated v there),
            )
            refl
