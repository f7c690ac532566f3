-- ===== src/Network/Servers/Names.antt =====
-- The names of services and of methods (src/labrpc/labrpc.go): how `dispatch` splits them, and the
-- handlers that `MakeService` finds.
use Prim.Native.String.{[] as empty, ◌∷◌ as ◌∷ₛ◌}
use sharded_raft_key_value_s.Prelude.{
  ◌≡◌, refl, ap, ◌∙◌, false, none, some, List, [], ◌∷◌, ◌++◌, String, ◌=?◌, nat_eq, string_eq,
  arith, All,
}
use sharded_raft_key_value_s.Prelude.Dict.{Dict, lookup, insert, lookup-insert, =?_refl}
use sharded_raft_key_value_s.Network.Servers.{Method, is_dot, split_last, unsuitable, handlers}

abbrev pub IsDotless : String → Type 0
IsDotless empty = Unit
IsDotless (c ∷ₛ text) = (is_dot c ≡ false) × IsDotless text

-- the name of a service, a dot, and the name of a method
abbrev pub full_name : String → String → String
full_name empty method_name = "." ∷ₛ method_name
full_name (c ∷ₛ service_name) method_name = c ∷ₛ full_name service_name method_name

split_last-IsDotless : (text : String) → IsDotless text → split_last text ≡ none
unfolding split_last
split_last-IsDotless empty h = refl
split_last-IsDotless (c ∷ₛ text) (h, hs) = rw (split_last-IsDotless text hs, h) refl

pub split_last-full_name :
    (service_name method_name : String)
    → IsDotless method_name
    → split_last (full_name service_name method_name) ≡ some (service_name, method_name)
unfolding split_last
split_last-full_name empty method_name h = rw (split_last-IsDotless method_name h) refl
split_last-full_name (c ∷ₛ service_name) method_name h =
    rw (split_last-full_name service_name method_name h) refl

module _ {V T S : Type 0} where
  handlers-later :
      (k : String) (typ : List (Method V T S)) (methods : Dict String (Method V T S))
      → All (λ (m : Method V T S). (m.name =? k) ≡ false) typ
      → lookup k (handlers typ methods) ≡ lookup k methods
  unfolding handlers
  handlers-later k [] methods h = refl
  handlers-later k (method ∷ typ) methods (h, hs) = ground (
    arith,
    handlers-later k typ methods hs,
    handlers-later k typ (insert method.name method methods) hs,
    lookup-insert method.name k method methods,
  )

  handlers-suitable :
      (method : Method V T S) (typ : List (Method V T S)) (methods : Dict String (Method V T S))
      → unsuitable method ≡ false
      → handlers (method ∷ typ) methods ≡ handlers typ (insert method.name method methods)
  unfolding handlers
  handlers-suitable method typ methods u = rw u refl

  -- the method of this name is the last one
  pub lookup-handlers :
      (earlier later : List (Method V T S)) (method : Method V T S)
      (methods : Dict String (Method V T S))
      → unsuitable method ≡ false
      → All (λ (m : Method V T S). (m.name =? method.name) ≡ false) later
      → lookup method.name (handlers (earlier ++ method ∷ later) methods) ≡ some method
  unfolding handlers
  lookup-handlers [] later method methods u h =
      ap (lookup method.name) (handlers-suitable method later methods u)
      ∙ handlers-later method.name later (insert method.name method methods) h
      ∙ rw (lookup-insert method.name method.name method methods, =?_refl method.name) refl
  lookup-handlers (other ∷ earlier) later method methods u h =
      lookup-handlers earlier later method _ u h
