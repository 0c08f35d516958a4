-- ===== src/Pool/Connect/Open/Unregistered.antt =====
-- A server whose pool could not be opened is not registered any more.
use orcacommon.Common.{ℕ, ◌≡◌, refl, ap, Option, none, some, [], ◌∷◌, arith, Option-cases, inl, inr}
use orcacommon.Common.Text.{Text}
use orcacommon.EmbeddedPg.Process.{System}
use orcacommon.Pool.Dsn.{Sql}
use orcacommon.Pool.Stop.{Instance}
use orcacommon.Pool.Connect.{Host, Instances, instance_of, without}
use orcacommon.Pool.Connect.Open.{Conn, with_state, stop_started, terminate_started, open_located}

instance_of-without : (k : Text) (m : Instances) → instance_of k (without k m) ≡ none
unfolding instance_of without
instance_of-without k [] = refl
instance_of-without k ((j, i) ∷ m) = ground (arith, instance_of-without k m)

module _ {S : Type 0} (sys : System S) (host : Host S) (sql : Sql S) where
  instances-terminate_started :
      (o : Option ℕ) (c : Conn S) → (terminate_started sys host sql o c).instances ≡ c.instances
  instances-terminate_started none c = refl
  instances-terminate_started (some i) c = refl

  instances-stop_started :
      (key : Text) (mine : Instance) (c : Conn S)
      → instance_of key (stop_started sys host sql key (some mine) c).instances ≡ none
  instances-stop_started key mine c = elim (Option-cases (instance_of key c.instances)) [
    | inl e ↦ ground (arith, instance_of-without key c.instances)
    | inr (i, e) ↦ ground (arith, instance_of-without key c.instances)
  ]

  -- If a server was started and its pool cannot be opened, the key has no server afterwards.
  open_located-unregistered :
      (key url : Text) (mine : Instance) (container : Option ℕ) (c : Conn S)
      → (open_located sys host sql key url (some mine) container c).0 ≡ none
      → instance_of key (open_located sys host sql key url (some mine) container c).1.instances
        ≡ none
  unfolding open_located
  open_located-unregistered key url mine container c h =
      let d = with_state sys host sql ((host.new_pool url c.state.0).1, c.state.1) c in
      let stopped = stop_started sys host sql key (some mine) d in
      ground (
        arith,
        ap (instance_of key) (instances-terminate_started container stopped),
        instances-stop_started key mine d,
      )
