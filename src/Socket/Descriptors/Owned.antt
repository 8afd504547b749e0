-- ===== src/Socket/Descriptors/Owned.antt =====
-- The members of a socket that hold descriptors, beside those that are open in the process.
use protobuf_sandbox.Prelude.{
  ℕ, suc, ◌+◌, ◌≡◌, ◌≢◌, sym, subst, true, false, Option, none, some, List, [], ◌∷◌, ◌++◌, arith,
  length,
}
use protobuf_sandbox.Socket.Descriptors.{
  Call, opened, closed, close_if, has, remove, after_calls, Granted, ClosesOpen, one,
}

length-remove :
    (fd : ℕ) (fds : List ℕ) → has fd fds ≡ true → length fds ≡ suc (length (remove fd fds))
length-remove fd [] h = cc
length-remove fd (x ∷ fds) h = ground (arith, length-remove fd fds)

has-remove : (a b : ℕ) (fds : List ℕ) → a ≢ b → has a fds ≡ true → has a (remove b fds) ≡ true
has-remove a b [] d h = cc
has-remove a b (x ∷ fds) d h = ground (arith, has-remove a b fds d)

-- What a member holds is open, and two members hold different descriptors.
abbrev pub Holds : Option ℕ → List ℕ → Type 0
Holds none fds = Unit
Holds (some fd) fds = has fd fds ≡ true

abbrev pub Apart : Option ℕ → Option ℕ → Type 0
Apart (some a) (some b) = a ≢ b
Apart _ _ = Unit

-- The members hold open descriptors, and all but `lost` of the open ones.
pub record Owned (client server : Option ℕ) (fds : List ℕ) (lost : ℕ) : Type 0 where
  pub client_open : Holds client fds
  pub server_open : Holds server fds
  pub apart : Apart client server
  pub size : length fds ≡ one client + one server + lost

module _ (fds : List ℕ) (lost : ℕ) where
  pub close_client :
      (c v : Option ℕ)
      → Owned c v fds lost
      → ClosesOpen (close_if c) fds × Owned none v (after_calls (close_if c) fds) lost
  unfolding close_if
  close_client none v o =
      (tt, record { client_open = tt; server_open = o.server_open; apart = tt; size = o.size })
  close_client (some a) none o = (
    (o.client_open, tt),
    record {
      client_open = tt;
      server_open = tt;
      apart = tt;
      size = omega (arith, o.size, length-remove a fds o.client_open);
    },
  )
  close_client (some a) (some b) o = (
    (o.client_open, tt),
    record {
      client_open = tt;
      server_open = has-remove b a fds (λ e. o.apart (sym e)) o.server_open;
      apart = tt;
      size = omega (arith, o.size, length-remove a fds o.client_open);
    },
  )

  pub close_server :
      (v : Option ℕ)
      → Owned none v fds lost
      → ClosesOpen (close_if v) fds × Owned none none (after_calls (close_if v) fds) lost
  unfolding close_if
  close_server none o = (tt, o)
  close_server (some b) o = (
    (o.server_open, tt),
    record {
      client_open = tt;
      server_open = tt;
      apart = tt;
      size = omega (arith, o.size, length-remove b fds o.server_open);
    },
  )

  pub open_client :
      (fd : ℕ) (v : Option ℕ)
      → has fd fds ≡ false
      → Owned none v fds lost
      → Owned (some fd) v (fd ∷ fds) lost
  open_client fd none h o = record {
    client_open = ground arith;
    server_open = tt;
    apart = tt;
    size = omega (arith, o.size);
  }
  open_client fd (some b) h o = record {
    client_open = ground arith;
    server_open = ground (arith, o.server_open);
    apart = λ e. cc (o.server_open);
    size = omega (arith, o.size);
  }

  pub open_server :
      (fd : ℕ) (c : Option ℕ)
      → has fd fds ≡ false
      → Owned c none fds lost
      → Owned c (some fd) (fd ∷ fds) lost
  open_server fd none h o = record {
    client_open = tt;
    server_open = ground arith;
    apart = tt;
    size = omega (arith, o.size);
  }
  open_server fd (some a) h o = record {
    client_open = ground (arith, o.client_open);
    server_open = ground arith;
    apart = λ e. cc (o.client_open);
    size = omega (arith, o.size);
  }

  pub forget_client : (c v : Option ℕ) → Owned c v fds lost → Owned none v fds (one c + lost)
  forget_client c v o = record {
    client_open = tt;
    server_open = o.server_open;
    apart = tt;
    size = omega (arith, o.size);
  }

  pub forget_server : (c v : Option ℕ) → Owned c v fds lost → Owned c none fds (one v + lost)
  forget_server none v o = record {
    client_open = tt;
    server_open = tt;
    apart = tt;
    size = omega (arith, o.size);
  }
  forget_server (some a) v o = record {
    client_open = o.client_open;
    server_open = tt;
    apart = tt;
    size = omega (arith, o.size);
  }

-- Calls that close only open descriptors, and what the members hold behind them.
abbrev pub Fine : List Call → Option ℕ → Option ℕ → List ℕ → ℕ → Type 0
Fine calls c v fds lost = ClosesOpen calls fds × Owned c v (after_calls calls fds) lost

pub Granted-append :
    (xs ys : List Call) (fds : List ℕ)
    → Granted (xs ++ ys) fds
    → Granted xs fds × Granted ys (after_calls xs fds)
Granted-append [] ys fds g = (tt, g)
Granted-append (opened fd ∷ xs) ys fds (h, g) =
    let (a, b) = Granted-append xs ys (fd ∷ fds) g in ((h, a), b)
Granted-append (closed fd ∷ xs) ys fds g = Granted-append xs ys (remove fd fds) g

pub Fine-append :
    (xs ys : List Call) (c v : Option ℕ) (fds : List ℕ) (lost : ℕ)
    → ClosesOpen xs fds
    → Fine ys c v (after_calls xs fds) lost
    → Fine (xs ++ ys) c v fds lost
Fine-append [] ys c v fds lost h k = k
Fine-append (opened fd ∷ xs) ys c v fds lost h k = Fine-append xs ys c v (fd ∷ fds) lost h k
Fine-append (closed fd ∷ xs) ys c v fds lost (p, h) k =
    let (a, b) = Fine-append xs ys c v (remove fd fds) lost h k in ((p, a), b)

has_front : (n : ℕ) (fds : List ℕ) → has n (n ∷ fds) ≡ true
has_front n fds = ground arith

remove_front : (n : ℕ) (fds : List ℕ) → remove n (n ∷ fds) ≡ fds
remove_front n fds = ground arith

-- A descriptor that is closed at once changes nothing.
pub open_close :
    (n : ℕ) (c v : Option ℕ) (fds : List ℕ) (lost : ℕ)
    → Owned c v fds lost
    → Fine (Call.opened n ∷ Call.closed n ∷ []) c v fds lost
open_close n c v fds lost o =
    ((has_front n fds, tt), subst (λ l. Owned c v l lost) (sym (remove_front n fds)) o)
