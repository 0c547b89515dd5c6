-- ===== src/Session/Dialled.antt =====
-- The connection that DialContext returns.
use booster.Common.{ℕ, ◌≡◌, refl, subst, inl, inr, false, some, arith, Bytes}
use booster.Common.Result.{Result, Result-cases, ok, err, resume, ◌>>=◌}
use booster.Packet.Stream.{Reader, Writer}
use booster.Protocol.Payloads.{Payload, PayloadHello, hello, hello_type}
use booster.Node.State.{Node, Environment}
use booster.Network.State.{Conn}
use booster.Link.{recv}
use booster.Session.{
  Error, Outside, World, Session, cleaned, failing, with_hello, introduced, new_conn, recv_hello,
  connected, dial_context, close_link, on_link, payload_of,
}

-- A result that is not an error has the property.
abbrev Each : {A : Type 0} → (A → Type 0) → Result Error A × World → Type 0
Each Q (ok a, s) = Q a
Each Q (err e, s) = Unit {0}

pub record Gives {A : Type 0} (Q : A → Type 0) (m : Session A) : Type 0 where
  pub gives : (s : World) → Each Q (m s)

module _ {A B : Type 0} (Q : B → Type 0) where
  resume-Each :
      (k : A → Session B) (x : Result Error A × World)
      → ((a : A) → Gives Q (k a))
      → Each Q (resume k x)
  resume-Each k (ok a, s) h = (h a).gives s
  resume-Each k (err e, s) h = tt

  Gives-bind : (m : Session A) (k : A → Session B) → ((a : A) → Gives Q (k a)) → Gives Q (m >>= k)
  Gives-bind m k h = record { gives = λ s. resume-Each k (m s) h }

module _ {A : Type 0} (Q : A → Type 0) where
  cleaned-Each :
      (last : Session (Unit {0})) (x : Result Error A × World) → Each Q x → Each Q (cleaned last x)
  cleaned-Each last (ok a, s) h = h
  cleaned-Each last (err e, s) h = tt

  Gives-failing : (last : Session (Unit {0})) (m : Session A) → Gives Q m → Gives Q (failing last m)
  Gives-failing last m h = record { gives = λ s. cleaned-Each last (m s) (h.gives s) }

new-untraced :
    (env : Environment) (host pport bport : Bytes) (n : Node)
    → booster.Node.State.new env host pport bport false ≡ ok n
    → n.to_be_traced ≡ false
unfolding booster.Node.State.new
new-untraced env host pport bport n h = ground arith

-- Open under the handle, and not to be traced.
abbrev pub IsFresh : ℕ → Conn → Type 0
IsFresh h d = (d.conn ≡ some h) × (d.remote_node.to_be_traced ≡ false)

module _ (o : Outside) (h : ℕ) where
  Gives-introduced : (pl : PayloadHello) → Gives (IsFresh h) (introduced o h pl)
  unfolding introduced new_conn
  Gives-introduced pl = record {
    gives = λ s.
        elim (Result-cases (booster.Node.State.new o.node_env (o.host h) pl.pport pl.bport false)) [
          | inl (e, f) ↦ rw (introduced, f) tt
          | inr (n, f) ↦
              rw (introduced, f) (refl, new-untraced o.node_env (o.host h) pl.pport pl.bport n f)
        ];
  }

  Gives-with_hello : (v : Payload) → Gives (IsFresh h) (with_hello o (introduced o h) v)
  Gives-with_hello (hello pl) = Gives-introduced pl
  Gives-with_hello v = record { gives = λ s. tt }

  Gives-recv_hello : Gives (IsFresh h) (recv_hello o h)
  unfolding recv_hello
  Gives-recv_hello = Gives-failing (IsFresh h) (close_link o h) _ (
      Gives-bind (IsFresh h) (on_link h recv) _
        λ p. Gives-bind (IsFresh h) (payload_of o hello_type p) _ λ v. Gives-with_hello v)

module _ (o : Outside) where
  dialled-Each :
      (r : Result Bytes (Writer × Reader)) (s : World)
      → Each (IsFresh s.next) (resume (recv_hello o) (connected o r s))
  dialled-Each (ok conn) s = (Gives-recv_hello o s.next).gives _
  dialled-Each (err e) s = tt

  -- A connection that was dialled is open under the next handle, and its node is not traced.
  pub dial_context-IsFresh :
      (target : Bytes) (s s1 : World) (d : Conn)
      → dial_context o target s ≡ (ok d, s1)
      → IsFresh s.next d
  unfolding dial_context
  dial_context-IsFresh target s s1 d h =
      subst (Each (IsFresh s.next)) h (dialled-Each (o.dial target) s)
