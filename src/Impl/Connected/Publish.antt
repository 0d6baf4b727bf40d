-- ===== src/Impl/Connected/Publish.antt =====
-- The state word under its two kinds of writers: callbacks always write, and `isConnected` publishes
-- only over the word that it loaded.
use net_way.Prelude.{
  ℕ, ◌+◌, ◌%◌, ◌^◌, ◌≡◌, ◌≢◌, ◌<◌, refl, sym, ap, ◌∙◌, List, [], ◌∷◌, arith, length, All, ==_iff,
}
use net_way.Packed.{pack_state, unpack_state, unpack-pack, unpack-InRange}
use net_way.Sdk.{
  Event, state_changed, inactive, give_up_requested, shutdown_requested, Sdk, SdkState,
}
use net_way.Impl.{
  Impl, State, call, call_run_iterate, fields, next_version, deliver, on_event,
  try_publish_if_unchanged, update_bad_status_time,
}
use net_way.Impl.Connected.{refresh, note_status}

-- The values fit the fields of the word.
pub record Fits (t : SdkState) : Type 0 where
  pub status_fits : t.status < 2 ^ 32
  pub channel_fits : t.channel < 2 ^ 8
  pub session_fits : t.session < 2 ^ 8

-- One write of all three values.
abbrev pub write : SdkState → ℕ → ℕ
write t w = pack_state t.status t.channel t.session (next_version (unpack_state w).version)

abbrev pub writes : List SdkState → ℕ → ℕ
writes [] w = w
writes (t ∷ ts) w = writes ts (write t w)

-- The state callbacks among the events.
abbrev pub callbacks : List Event → List SdkState
callbacks [] = []
callbacks (state_changed c n st ∷ es) =
    (record { channel = c; session = n; status = st }) ∷ callbacks es
callbacks (inactive ∷ es) = callbacks es
callbacks (give_up_requested ∷ es) = callbacks es
callbacks (shutdown_requested ∷ es) = callbacks es

abbrev pub last : SdkState → List SdkState → SdkState
last t [] = t
last t (u ∷ us) = last u us

-- What the word holds after a write: the values, and the next version.
pub unpack-write :
    (t : SdkState) (w : ℕ)
    → Fits t
    → unpack_state (write t w) ≡ record {
      status = t.status;
      channel = t.channel;
      session = t.session;
      version = next_version (unpack_state w).version;
    }
unpack-write t w f =
    unpack-pack
      (record {
        status = t.status;
        channel = t.channel;
        session = t.session;
        version = next_version (unpack_state w).version;
      })
      (record {
        status_fits = f.status_fits;
        channel_fits = f.channel_fits;
        session_fits = f.session_fits;
        version_fits = omega arith;
      })

version-writes :
    (ts : List SdkState) (w : ℕ)
    → All Fits ts
    → (unpack_state (writes ts w)).version ≡ ((unpack_state w).version + length ts) % 2 ^ 16
version-writes [] w f = omega (arith, (unpack-InRange w).version_fits)
version-writes (t ∷ ts) w f =
    omega (arith, version-writes ts (write t w) f.1, ap (λ u. u.version) (unpack-write t w f.0))

last-writes :
    (t : SdkState) (ts : List SdkState) (w : ℕ)
    → Fits t
    → All Fits ts
    → let u = unpack_state (writes (t ∷ ts) w) in
      (u.status ≡ (last t ts).status)
      × (u.channel ≡ (last t ts).channel)
      × (u.session ≡ (last t ts).session)
last-writes t [] w f fs = (
  ap (λ u. u.status) (unpack-write t w f),
  ap (λ u. u.channel) (unpack-write t w f),
  ap (λ u. u.session) (unpack-write t w f),
)
last-writes t (u ∷ us) w f fs = last-writes u us (write t w) fs.0 fs.1

-- No ABA: between one and 2 ^ 16 - 1 writes by others change the word.
writes-ne :
    (t : SdkState) (ts : List SdkState) (w : ℕ)
    → All Fits (t ∷ ts)
    → length (t ∷ ts) < 2 ^ 16
    → writes (t ∷ ts) w ≢ w
writes-ne t ts w f h e = omega (
  arith,
  version-writes (t ∷ ts) w f,
  ap (λ v. (unpack_state v).version) e,
  (unpack-InRange w).version_fits,
)

-- The other events leave the word alone.
inactive-word : (i : Impl) → (on_event inactive i).state_packed ≡ i.state_packed
unfolding on_event
inactive-word i = ground arith

give_up-word : (i : Impl) → (on_event give_up_requested i).state_packed ≡ i.state_packed
unfolding on_event
give_up-word i = refl

shutdown-word : (i : Impl) → (on_event shutdown_requested i).state_packed ≡ i.state_packed
unfolding on_event
shutdown-word i = ground arith

deliver-word :
    (es : List Event) (i : Impl)
    → (deliver es i).state_packed ≡ writes (callbacks es) i.state_packed
unfolding deliver on_event
deliver-word [] i = refl
deliver-word (state_changed c n st ∷ es) i = deliver-word es (on_event (state_changed c n st) i)
deliver-word (inactive ∷ es) i =
    deliver-word es (on_event inactive i) ∙ ap (writes (callbacks es)) (inactive-word i)
deliver-word (give_up_requested ∷ es) i =
    deliver-word es (on_event give_up_requested i) ∙ ap (writes (callbacks es)) (give_up-word i)
deliver-word (shutdown_requested ∷ es) i =
    deliver-word es (on_event shutdown_requested i) ∙ ap (writes (callbacks es)) (shutdown-word i)

-- A publication writes over the word that was loaded and over no other.
publish-same :
    (t : SdkState) (i : Impl) (w : ℕ)
    → i.state_packed ≡ w
    → (try_publish_if_unchanged w t.status t.channel t.session i).1.state_packed ≡ write t w
unfolding try_publish_if_unchanged
publish-same t i w e = rw ((==_iff i.state_packed w).1 e)

publish-other :
    (t : SdkState) (i : Impl) (w : ℕ)
    → i.state_packed ≢ w
    → (try_publish_if_unchanged w t.status t.channel t.session i).1.state_packed ≡ i.state_packed
unfolding try_publish_if_unchanged
publish-other t i w n = ground arith

module _ {W : Type 0} (sdk : Sdk W) where
  note_status-word : (t : ℕ) (s : State W) → (note_status sdk t s).state_packed ≡ s.state_packed
  unfolding note_status update_bad_status_time
  note_status-word t s = ground arith

  refresh-word :
      (t : ℕ) (s : State W)
      → let s1 = call_run_iterate sdk t s in
        let g = sdk.get_state s1.world in
        (refresh sdk t s).state_packed
        ≡ (try_publish_if_unchanged s1.state_packed g.value.status g.value.channel g.value.session
            (deliver g.events s1.impl)).1.state_packed
  unfolding refresh call
  refresh-word t s =
      let s1 = call_run_iterate sdk t s in
      let g = sdk.get_state s1.world in
      let p =
        try_publish_if_unchanged s1.state_packed g.value.status g.value.channel g.value.session
          (deliver g.events s1.impl) in
      note_status-word g.value.status (record { impl = p.1; world = g.world })

  -- What a look at the state leaves in the word. If no state callback ran while the library was
  -- asked, the word holds the library's answer under the next version. If one to 2 ^ 16 - 1 callbacks
  -- ran, the answer is dropped as stale and the word is what those callbacks wrote, the last of
  -- them being read back. All values are taken to fit their fields.
  pub refresh_publishes :
      (t : ℕ) (s : State W)
      → let s1 = call_run_iterate sdk t s in
        let g = sdk.get_state s1.world in
        let u = unpack_state (refresh sdk t s).state_packed in
        (callbacks g.events ≡ []
          → Fits g.value
          → u ≡ record {
            status = g.value.status;
            channel = g.value.channel;
            session = g.value.session;
            version = next_version (fields s1.impl).version;
          })
        × ((c : SdkState) (cs : List SdkState)
            → callbacks g.events ≡ c ∷ cs
            → All Fits (c ∷ cs)
            → length (c ∷ cs) < 2 ^ 16
            → ((refresh sdk t s).state_packed ≡ writes (c ∷ cs) s1.state_packed)
              × (u.status ≡ (last c cs).status)
              × (u.channel ≡ (last c cs).channel)
              × (u.session ≡ (last c cs).session))
  refresh_publishes t s =
      let s1 = call_run_iterate sdk t s in
      let g = sdk.get_state s1.world in
      let i = deliver g.events s1.impl in
      (
        λ e f.
            let word : (refresh sdk t s).state_packed ≡ write g.value s1.state_packed =
              refresh-word t s
              ∙ publish-same g.value i s1.state_packed
                  (deliver-word g.events s1.impl ∙ ap (λ ts. writes ts s1.state_packed) e) in
            ap unpack_state word ∙ unpack-write g.value s1.state_packed f,
        λ c cs e f h.
            let written : i.state_packed ≡ writes (c ∷ cs) s1.state_packed =
              deliver-word g.events s1.impl ∙ ap (λ ts. writes ts s1.state_packed) e in
            let moved : i.state_packed ≢ s1.state_packed =
              λ same. writes-ne c cs s1.state_packed f h (sym written ∙ same) in
            let word : (refresh sdk t s).state_packed ≡ writes (c ∷ cs) s1.state_packed =
              refresh-word t s ∙ publish-other g.value i s1.state_packed moved ∙ written in
            let read = last-writes c cs s1.state_packed f.0 f.1 in
            (word, rw word read.0, rw word read.1, rw word read.2),
      )
