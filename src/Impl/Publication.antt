-- ===== src/Impl/Publication.antt =====
-- The loop of `updatePacked` in `src/OPCUAPacking/ua.cpp`, with the writes of other threads between a
-- load and the exchange: the state callback's write is never lost and is atomic, which is how
-- `update_packed` of `Impl` has it.
use net_way.Prelude.{
  ℕ, ◌≡◌, refl, inl, inr, Bool, true, false, ◌&&◌, ◌==◌, ==_iff, List, [], ◌∷◌, arith, Bool-cases,
  if◌then◌else◌,
}
use net_way.Sdk.{SdkState, state_changed}
use net_way.Packed.{unpack_state}
use net_way.Impl.{Impl, next_version, on_event, update_packed}
use net_way.Impl.Connected.Publish.{Fits, write, unpack-write}
use net_way.Atomic.{Attempted, TakesEffect, takes_effect}

-- What happens just before one `compare_exchange_weak`: another thread writes a word, or the
-- exchange fails for no reason, or neither.
pub data Interference : Type 0 where
  written : ℕ → Interference
  spurious quiet : Interference

unfoldable pub overwrite : Interference → ℕ → ℕ
overwrite (written v) w = v
overwrite spurious w = w
overwrite quiet w = w

unfoldable pub may_exchange : Interference → Bool
may_exchange (written v) = true
may_exchange spurious = false
may_exchange quiet = true

-- The loop: the next word is made from the loaded one, and after a failure from the word that the
-- exchange found. After the listed interferences no thread disturbs it, so that the next round, or
-- the one after it, settles it.
unfoldable pub update_packed_loop : SdkState → ℕ → List Interference → ℕ → ℕ
unfolding overwrite may_exchange
update_packed_loop t old [] w = if w == old then write t old else write t w
update_packed_loop t old (a ∷ rest) w =
    let retry = update_packed_loop t (overwrite a w) rest (overwrite a w) in
    if may_exchange a && (overwrite a w == old) then write t old else retry

undisturbed : (t : SdkState) (w : ℕ) → update_packed_loop t w [] w ≡ write t w
unfolding update_packed_loop
undisturbed t w = ground arith

attempted :
    (t : SdkState) (a : Interference) (rest : List Interference) (w : ℕ)
    → Attempted overwrite (write t) (λ v. v) (update_packed_loop t) a rest w
unfolding update_packed_loop overwrite may_exchange
attempted t (written v) rest w = elim (Bool-cases (v == w)) [
  | inl e ↦ inr (inl (rw e refl, (==_iff v w).0 e))
  | inr e ↦ inr (inr (rw e refl))
]
attempted t spurious rest w = inr (inr refl)
attempted t quiet rest w = inr (inl (rw ((==_iff w w).1 refl) refl, refl))

-- A callback's word by one step on the word `w`.
abbrev pub called_back : SdkState → Impl → ℕ → ℕ
called_back t i w =
    (on_event (state_changed t.channel t.session t.status)
      (record i { state_packed = w })).state_packed

-- A callback's write is atomic and loses nobody else's: whatever words other threads write and however
-- exchanges fail, the loop leaves what `updatePacked` leaves in one step, and that step's exchange
-- goes over a word that nobody has changed since it was read, or the interference is over. On any word
-- the step leaves the callback's three values under the version that follows the word's.
pub update_is_atomic :
    (t : SdkState) (turns : List Interference) (i : Impl)
    → Fits t
    → TakesEffect overwrite
        (called_back t i)
        (λ v. v)
        turns
        i.state_packed
        (update_packed_loop t i.state_packed turns i.state_packed)
      × ((w : ℕ)
          → unpack_state (called_back t i w) ≡ record {
            status = t.status;
            channel = t.channel;
            session = t.session;
            version = next_version (unpack_state w).version;
          })
unfolding on_event update_packed
update_is_atomic t turns i f = (
  takes_effect overwrite (write t) (λ v. v) (update_packed_loop t) (undisturbed t) (attempted t)
      turns i.state_packed,
  λ w. unpack-write t w f,
)
