-- ===== src/Json/Typed/Chains.antt =====
-- Typed chains in which the setters replace, append or change an item.
use protobuf_sandbox.Prelude.{ℕ, zero, suc, refl, Bool, true, false, arith, Bytes, if◌then◌else◌}
use protobuf_sandbox.Json.Node.{
  Double, Item, CJson, null, node, cjson_true, cjson_false, append, replace_first, edit,
}
use protobuf_sandbox.Json.Library.{Floats, number_item, string_item, renamed}
use protobuf_sandbox.Json.Typed.{HasType, IsTyped}

module _ (fl : Floats) where
  pub append-IsTyped :
      (c : CJson) (new : Item) (kids : CJson)
      → IsTyped fl c
      → HasType fl new
      → IsTyped fl (append c (node new kids null))
  unfolding append
  append-IsTyped null new kids h t = (t, tt)
  append-IsTyped (node it c n) new kids (h, hs) t = (h, append-IsTyped n new kids hs t)

  pub replace_first-IsTyped :
      (p : Item → Bool) (c : CJson) (new : Item) (kids : CJson)
      → IsTyped fl c
      → HasType fl new
      → IsTyped fl (replace_first p new kids c)
  unfolding replace_first
  replace_first-IsTyped p null new kids h t = tt
  replace_first-IsTyped p (node it c n) new kids (h, hs) t =
      split (p it) (replace_first-IsTyped p n new kids hs t)
    where
      split :
          (b : Bool)
          → IsTyped fl (replace_first p new kids n)
          → IsTyped fl (if b then node new kids n else node it c (replace_first p new kids n))
      split true r = (t, hs)
      split false r = (h, r)

  pub edit-IsTyped :
      (f : Item → Item) (i : ℕ) (c : CJson)
      → IsTyped fl c
      → ((x : Item) → HasType fl x → HasType fl (f x))
      → IsTyped fl (edit i f c)
  unfolding edit
  edit-IsTyped f i null h k = tt
  edit-IsTyped f zero (node it c n) (h, hs) k = (k it h, hs)
  edit-IsTyped f (suc i) (node it c n) (h, hs) k = (h, edit-IsTyped f i n hs k)

pub number_item-HasType :
    (fl : Floats) (key : Bytes) (d : Double) → HasType fl (renamed key (number_item fl d))
number_item-HasType fl key d = record {
  named = (key, refl);
  text = λ e. absurd (omega (arith, e));
  number = λ e. refl;
}

pub string_item-HasType : (fl : Floats) (key s : Bytes) → HasType fl (renamed key (string_item s))
string_item-HasType fl key s = record {
  named = (key, refl);
  text = λ e. (s, refl);
  number = λ e. absurd (omega (arith, e));
}

-- The store of a truth value.
abbrev pub truth_of : Bool → Item → Item
truth_of v x = record x { kind = if v then cjson_true else cjson_false }

pub truth_of-HasType :
    (fl : Floats) (v : Bool) (x : Item) → HasType fl x → HasType fl (truth_of v x)
truth_of-HasType fl true x h = record {
  named = h.named;
  text = λ e. absurd (omega (arith, e));
  number = λ e. absurd (omega (arith, e));
}
truth_of-HasType fl false x h = record {
  named = h.named;
  text = λ e. absurd (omega (arith, e));
  number = λ e. absurd (omega (arith, e));
}
