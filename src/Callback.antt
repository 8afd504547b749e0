-- ===== src/Callback.antt =====
-- The callbacks of src/Callback.h: a member function of an object, with its arguments and the value that
-- it returned. The object is kept in the callback, and a member function takes it and returns it as it
-- leaves it. Arguments of type `void *` are the values that they stand for.
use protobuf_sandbox.Prelude.{Option, none, some}

-- `Callback0`; there is no value before the first call.
pub record Callback0 (C R : Type 0) : Type 0 where
  pub object : C
  pub function : C → C × R
  pub return_value : Option R

module _ {C R : Type 0} where
  unfoldable pub new_callback0 : C → (C → C × R) → Callback0 C R
  new_callback0 c f = record { object = c; function = f; return_value = none }

  unfoldable pub invoke0 : Callback0 C R → Callback0 C R
  invoke0 cb = let (c, r) = cb.function cb.object in record cb { object = c; return_value = some r }

  -- `Invoke(a1, a2)`, which drops the arguments.
  unfoldable pub invoke0_with : {A B : Type 0} → Callback0 C R → A → B → Callback0 C R
  unfolding invoke0
  invoke0_with cb a b = invoke0 cb

-- `Callback1`.
pub record Callback1 (C R A : Type 0) : Type 0 where
  pub object : C
  pub function : C → A → C × R
  pub argument : A
  pub return_value : Option R

module _ {C R A : Type 0} where
  unfoldable pub new_callback1 : C → (C → A → C × R) → A → Callback1 C R A
  new_callback1 c f a = record { object = c; function = f; argument = a; return_value = none }

  unfoldable pub invoke1 : Callback1 C R A → Callback1 C R A
  invoke1 cb =
      let (c, r) = cb.function cb.object cb.argument in
      record cb { object = c; return_value = some r }

  -- `Invoke(a1, a2)`, which drops the second argument.
  unfoldable pub invoke1_with : {B : Type 0} → Callback1 C R A → A → B → Callback1 C R A
  unfolding invoke1
  invoke1_with cb a b = invoke1 (record cb { argument = a })

-- `Callback2`.
pub record Callback2 (C R A B : Type 0) : Type 0 where
  pub object : C
  pub function : C → A → B → C × R
  pub argument1 : A
  pub argument2 : B
  pub return_value : Option R

module _ {C R A B : Type 0} where
  unfoldable pub new_callback2 : C → (C → A → B → C × R) → A → B → Callback2 C R A B
  new_callback2 c f a b = record {
    object = c;
    function = f;
    argument1 = a;
    argument2 = b;
    return_value = none;
  }

  unfoldable pub invoke2 : Callback2 C R A B → Callback2 C R A B
  invoke2 cb =
      let (c, r) = cb.function cb.object cb.argument1 cb.argument2 in
      record cb { object = c; return_value = some r }

  unfoldable pub invoke2_with : Callback2 C R A B → A → B → Callback2 C R A B
  unfolding invoke2
  invoke2_with cb a b = invoke2 (record cb { argument1 = a; argument2 = b })
