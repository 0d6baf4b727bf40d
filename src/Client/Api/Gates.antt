-- ===== src/Client/Api/Gates.antt =====
-- What holds for every call that runs under a lease, whatever it does.
use net_way.Prelude.{
  ℕ, ◌+◌, ◌-◌, ◌≡◌, refl, ap, subst, sym, Bool, true, false, Option, none, some, arith,
}
use net_way.RichError.{ErrorCode, Result, err, recreating, already_terminated}
use net_way.Impl.{Impl, State}
use net_way.Client.{lease_enter, lease_leave, active, Client, RecreateSync, entry}
use net_way.Client.Api.{Body}

lease_and_back : (n : ℕ) → n + 1 - 1 ≡ n
lease_and_back n = omega arith

abbrev pub Ends : {A : Type 0} → Option A → Type 0
Ends {A = A} o = (a : A) × (o ≡ some a)

pub no_client : {A : Type 0} {a : A} → some a ≡ none → ⊥
no_client h = ground arith

pub then-Ends :
    {A B R S : Type 0} (f : R → S → A × B) {o : Option (R × S)}
    → Ends o
    → Ends (elim o [ none ↦ none | some (r, s) ↦ some (f r s) ])
then-Ends f {o = none} h = absurd (no_client (sym h.1))
then-Ends f {o = some (r, s)} h = (_, refl)

module _ {W : Type 0} where
  -- A call that is admitted gives what the operation gives on the client that it found, and returns
  -- its lease.
  abbrev pub Served :
      {A : Type 0} → Body W A → Impl → Client W → Option (Result A ErrorCode × Client W) → Type 0
  Served body i c none = body (record { impl = i; world = c.world }) ≡ none
  Served body i c (some (r, c1)) =
      (c1.sync ≡ c.sync)
      × ((j : Impl) × (c1.p_impl ≡ some j)
          × (body (record { impl = i; world = c.world })
              ≡ some (r, record { impl = j; world = c1.world })))

  -- The answer of a call, by the three things that the interface looks at first.
  abbrev pub Gated :
      {A : Type 0}
      → (missing : ErrorCode) → Body W A
      → (terminated recreating : Bool) → Option Impl
      → Client W
      → Option (Result A ErrorCode × Client W)
      → Type 0
  Gated missing body true re o c a = a ≡ some (err already_terminated, c)
  Gated missing body false true o c a = a ≡ some (err recreating, c)
  Gated missing body false false none c a = a ≡ some (err missing, c)
  Gated missing body false false (some i) c a = Served body i c a

  abbrev pub IsGated :
      {A : Type 0}
      → (missing : ErrorCode) → Body W A
      → Client W
      → Option (Result A ErrorCode × Client W)
      → Type 0
  IsGated missing body c a = Gated missing body c.sync.m_terminated c.sync.m_recreating c.p_impl c a

  abbrev back :
      {A : Type 0}
      → RecreateSync
      → Option (Result A ErrorCode × State W)
      → Option (Result A ErrorCode × Client W)
  back y o = elim o [
    | none ↦ none
    | some (r, s) ↦ some (r, record { sync = y; p_impl = some s.impl; world = s.world })
  ]

  back-Served :
      {A : Type 0} (body : Body W A) (i : Impl) (c : Client W)
      (o : Option (Result A ErrorCode × State W))
      → body (record { impl = i; world = c.world }) ≡ o
      → Served body i c (back c.sync o)
  back-Served body i c none h = h
  back-Served body i c (some (r, s)) h = (refl, (s.impl, refl, h))

  abbrev client_of : (re t : Bool) (n k : ℕ) → Option Impl → W → Client W
  client_of re t n k o w = record {
    sync = record {
      m_recreating = re;
      m_terminated = t;
      m_in_flight = n;
      m_shutdown_in_flight = k;
    };
    p_impl = o;
    world = w;
  }

  entry_by :
      {A : Type 0} (missing : ErrorCode) (body : Body W A) (re t : Bool) (n k : ℕ) (o : Option Impl)
      (w : W)
      → IsGated missing body (client_of re t n k o w) (entry missing body (client_of re t n k o w))
  unfolding entry
  entry_by missing body re true n k o w = refl
  entry_by missing body true false n k o w = refl
  entry_by missing body false false n k none w =
      ap (λ m. some (err missing, client_of false false m k none w)) (lease_and_back n)
  entry_by missing body false false n k (some i) w =
      let c = client_of false false n k (some i) w in
      subst
        (λ m.
          Served body i c
            (back (client_of false false m k none w).sync (body (record { impl = i; world = w }))))
        (sym (lease_and_back n)) (back-Served body i c (body (record { impl = i; world = w })) refl)

  pub entry-Gated :
      {A : Type 0} (missing : ErrorCode) (body : Body W A) (c : Client W)
      → IsGated missing body c (entry missing body c)
  entry-Gated missing body c =
      entry_by missing body c.sync.m_recreating c.sync.m_terminated c.sync.m_in_flight
        c.sync.m_shutdown_in_flight c.p_impl c.world

  entry_cases :
      {A : Type 0} (missing : ErrorCode) (body : Body W A) (re t : Bool) (n k : ℕ) (o : Option Impl)
      (w : W)
      → ((s : State W) → Ends (body s))
      → Ends (entry missing body (client_of re t n k o w))
  unfolding entry lease_enter lease_leave
  entry_cases missing body re true n k o w h = (_, refl)
  entry_cases missing body true false n k o w h = (_, refl)
  entry_cases missing body false false n k none w h = (_, refl)
  entry_cases missing body false false n k (some i) w h =
      then-Ends
        (λ r s. (
          r,
          record {
            sync = lease_leave active (lease_enter (client_of false false n k (some i) w).sync).1;
            p_impl = some s.impl;
            world = s.world;
          },
        ))
        (h (record { impl = i; world = w }))

  pub entry-Ends :
      {A : Type 0} (missing : ErrorCode) (body : Body W A) (c : Client W)
      → ((s : State W) → Ends (body s))
      → Ends (entry missing body c)
  entry-Ends missing body c h =
      entry_cases missing body c.sync.m_recreating c.sync.m_terminated c.sync.m_in_flight
        c.sync.m_shutdown_in_flight c.p_impl c.world h
