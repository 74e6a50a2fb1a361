-- ===== src/PortServer/Filing.antt =====
-- A socket in the table of src/MessagePortServer.cpp, when another opens or closes.
use cloud_node.Base.{
  if◌then◌else◌, Bool-cases, ◌==◌, ==_iff, nat_ord, Text, text_ord, pair_ord, ℕ, ◌≡◌, refl, sym, ap,
  ◌∙◌, inl, inr, Bool, true, false, Option, none, some,
}
use cloud_node.Base.Dict.{Dict, lookup, insert, erase, lookup-insert, lookup-erase}
use cloud_node.Server.{Ws}
use cloud_node.PortServer.{is_socket}

-- A socket of the table is open and is filed under its own id.
abbrev pub IsFiled : Dict ℕ Text → Text → Option Ws → Type 0
IsFiled connected id none = Unit {0}
IsFiled connected id (some ws) = (ws.x_client_id ≡ id) × (lookup ws.handle connected ≡ some id)

pub contradicted : true ≡ false → ⊥
contradicted f = cc

pub if-IsFiled :
    (connected : Dict ℕ Text) (id : Text) (b : Bool) (x y : Option Ws)
    → (b ≡ true → IsFiled connected id x)
    → (b ≡ false → IsFiled connected id y)
    → IsFiled connected id (if b then x else y)
if-IsFiled connected id true x y h g = h refl
if-IsFiled connected id false x y h g = g refl

-- A socket that opens is none of those that are open.
pub insert-IsFiled :
    (handle : ℕ) (x id : Text) (o : Option Ws) (connected : Dict ℕ Text)
    → lookup handle connected ≡ none
    → IsFiled connected id o
    → IsFiled (insert handle x connected) id o
insert-IsFiled handle x id none connected e h = tt
insert-IsFiled handle x id (some w) connected e (a, b) = (
  a,
  elim (Bool-cases (w.handle == handle)) [
    | inl same ↦ absurd (
        none_some
          (sym e ∙ (ap (λ k. lookup k connected) (sym ((==_iff w.handle handle).0 same)) ∙ b)))
    | inr other ↦ lookup-insert w.handle handle x connected ∙ rw other b
  ],
)
  where
    none_some : none ≡ some id → ⊥
    none_some f = cc

pub erase-IsFiled :
    (ws : Ws) (id : Text) (o : Option Ws) (connected : Dict ℕ Text)
    → lookup ws.handle connected ≡ some ws.x_client_id
    → (id ≡ ws.x_client_id → is_socket o ws ≡ false)
    → IsFiled connected id o
    → IsFiled (erase ws.handle connected) id o
erase-IsFiled ws id none connected e n h = tt
erase-IsFiled ws id (some w) connected e n (a, b) = (
  a,
  elim (Bool-cases (w.handle == ws.handle)) [
    | inl same ↦
        let ids : some id ≡ some ws.x_client_id =
          sym b ∙ (ap (λ k. lookup k connected) ((==_iff w.handle ws.handle).0 same) ∙ e) in
        absurd (contradicted (sym same ∙ n (some_inj ids)))
    | inr other ↦ lookup-erase w.handle ws.handle connected ∙ rw other b
  ],
)
  where
    some_inj : some id ≡ some ws.x_client_id → id ≡ ws.x_client_id
    some_inj f = cc
