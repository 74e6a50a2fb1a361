-- ===== src/FileLock/Ownership.antt =====
-- The objects own the descriptors: none is lost, none is shared, and none is closed that is not theirs.
use cloud_node.Base.{
  if◌then◌else◌, Bool-cases, Option-cases, ◌==◌, ==_iff, ==_refl, nat_ord, text_ord, pair_ord, ℕ,
  ◌≡◌, refl, sym, ◌∙◌, ◌≢◌, ◌⊎◌, inl, inr, false, Option, none, some, arith,
}
use cloud_node.FileLock.{Mode, Entry, conflicts, put}

-- The objects' descriptors, the kernel's table of open ones, and those that were open before.
pub record IsOwned (base : ℕ → Option Entry) (fds : ℕ → Option ℕ) (table : ℕ → Option Entry)
    : Type 0 where
  -- No two objects have one descriptor.
  pub apart : (i j fd : ℕ) → fds i ≡ some fd → fds j ≡ some fd → i ≡ j
  -- What an object has is open, and locked.
  pub locked :
      (i fd : ℕ)
      → fds i ≡ some fd
      → (f : ℕ) × (m : Mode) × (table fd ≡ some (record { file = f; lock = some m }))
  -- What is open was so before, or belongs to an object.
  pub accounted :
      (fd : ℕ) (e : Entry) → table fd ≡ some e → (base fd ≡ some e) ⊎ ((i : ℕ) × (fds i ≡ some fd))
  -- What was open before still is, and belongs to no object.
  pub spared : (fd : ℕ) (e : Entry) → base fd ≡ some e → table fd ≡ some e
  pub foreign : (i fd : ℕ) → fds i ≡ some fd → base fd ≡ none
  -- No two descriptors hold locks on one file that conflict.
  pub compatible :
      (a b f : ℕ) (l : Option Mode) (m : Mode)
      → a ≢ b
      → table a ≡ some (record { file = f; lock = some m })
      → table b ≡ some (record { file = f; lock = l })
      → conflicts l m ≡ false

conflicts-sym : (l m : Mode) → conflicts (some l) m ≡ false → conflicts (some m) l ≡ false
conflicts-sym Mode.shared Mode.shared h = refl
conflicts-sym Mode.exclusive _ h = absurd (cc)
conflicts-sym Mode.shared Mode.exclusive h = absurd (cc)

module _ {base : ℕ → Option Entry} {fds : ℕ → Option ℕ} {table : ℕ → Option Entry}
    (o : IsOwned base fds table) where
  pub same :
      (fds' : ℕ → Option ℕ) (table' : ℕ → Option Entry)
      → ((i : ℕ) → fds' i ≡ fds i)
      → ((fd : ℕ) → table' fd ≡ table fd)
      → IsOwned base fds' table'
  same fds' table' f t = record {
    apart = λ i j fd a b. o.apart i j fd (sym (f i) ∙ a) (sym (f j) ∙ b);
    locked = λ i fd a. let (x, m, h) = o.locked i fd (sym (f i) ∙ a) in (x, m, t fd ∙ h);
    accounted = λ fd e a. elim (o.accounted fd e (sym (t fd) ∙ a)) [
      | inl h ↦ inl h
      | inr (i, h) ↦ inr (i, f i ∙ h)
    ];
    spared = λ fd e a. t fd ∙ o.spared fd e a;
    foreign = λ i fd a. o.foreign i fd (sym (f i) ∙ a);
    compatible = λ a b x l m n p q. o.compatible a b x l m n (sym (t a) ∙ p) (sym (t b) ∙ q);
  }

  -- An object lets its descriptor go, which is closed.
  pub drop_some :
      (i fd : ℕ) (table' : ℕ → Option Entry)
      → fds i ≡ some fd
      → ((j : ℕ) → table' j ≡ (if j == fd then none else table j))
      → IsOwned base (put i none fds) table'
  drop_some i fd table' h t = record {
    apart = λ a b x p q. ground (arith, o.apart a b x);
    locked = λ a x p.
        let (f, m, e) = o.locked a x (ground arith) in
        (f, m, ground (arith, t x, e, o.apart a i x, ==_iff x fd, ==_iff a i));
    accounted = λ x e p. elim (o.accounted x e (ground (arith, t x))) [
      | inl b ↦ inl b
      | inr (a, b) ↦ inr (a, ground (arith, t x, ==_iff x fd, ==_iff a i))
    ];
    spared = λ x e b. ground (arith, t x, o.spared x e b, o.foreign i fd h, ==_iff x fd);
    foreign = λ a x p. o.foreign a x (ground arith);
    compatible =
        λ a b x l m n p q. o.compatible a b x l m n (ground (arith, t a)) (ground (arith, t b));
  }

  -- An object that has none gets a descriptor that is new.
  pub add :
      (i fd f : ℕ) (m : Mode) (table' : ℕ → Option Entry)
      → fds i ≡ none
      → table fd ≡ none
      → ((j : ℕ)
          → table' j ≡ (if j == fd then some (record { file = f; lock = some m }) else table j))
      → ((j : ℕ) (l : Option Mode)
          → j ≢ fd
          → table j ≡ some (record { file = f; lock = l })
          → conflicts l m ≡ false)
      → IsOwned base (put i (some fd) fds) table'
  add i fd f m table' h n t g = record {
    apart =
        λ a b x p q. ground (arith, o.apart a b x, ==_iff a i, ==_iff b i, unowned a, unowned b);
    locked = λ a x p. elim (Bool-cases (x == fd)) [
      | inl e ↦ (f, m, t x ∙ rw e refl)
      | inr e ↦ let (f', m', k) = o.locked a x (ground arith) in (f', m', t x ∙ rw e k)
    ];
    accounted = λ x e p. elim (Bool-cases (x == fd)) [
      | inl d ↦ inr (i, ground (arith, ==_refl i, ==_iff x fd))
      | inr d ↦ elim (o.accounted x e (ground (arith, t x))) [
        | inl b ↦ inl b
        | inr (a, b) ↦ inr (a, ground (arith, ==_iff a i))
      ]
    ];
    spared = λ x e b. ground (arith, t x, o.spared x e b, ==_iff x fd);
    foreign = λ a x p. elim (Option-cases (base x)) [
      | inl e ↦ e
      | inr (v, e) ↦ absurd (ground (arith, o.spared x v e, o.foreign a x))
    ];
    compatible = λ a b x l k d p q. elim (Bool-cases (a == fd)) [
      | inl e ↦ ground (arith, t a, t b, e, g b l, ==_iff a fd, ==_iff b fd)
      | inr e ↦ elim (Bool-cases (b == fd)) [
        | inl e' ↦
            ground
              (arith, t a, t b, e, e', g a (some k), ==_iff a fd, ==_iff b fd, conflicts-sym k m)
        | inr e' ↦ o.compatible a b x l k d (sym (t a ∙ rw e refl) ∙ p) (sym (t b ∙ rw e' refl) ∙ q)
      ]
    ];
  }
    where
      unowned : (a : ℕ) → fds a ≢ some fd
      unowned a p = let (x, k, e) = o.locked a fd p in absurd (cc)

  -- An object that has none takes over what another has.
  pub take_over :
      (i j : ℕ) → fds i ≡ none → i ≢ j → IsOwned base (put i (fds j) (put j none fds)) table
  take_over i j h n = record {
    apart = λ a b x p q. ground (
      arith,
      o.apart a b x,
      o.apart a j x,
      o.apart j b x,
      o.apart j j x,
      ==_iff a i,
      ==_iff b i,
      ==_iff a j,
      ==_iff b j,
    );
    locked = λ a x p. elim (Bool-cases (a == i)) [
      | inl e ↦ o.locked j x (ground arith)
      | inr e ↦ o.locked a x (ground arith)
    ];
    accounted = λ x e p. elim (o.accounted x e p) [
      | inl b ↦ inl b
      | inr (a, b) ↦ elim (Bool-cases (a == j)) [
        | inl d ↦ inr (i, ground (arith, ==_refl i, ==_iff a j))
        | inr d ↦ inr (a, ground (arith, ==_iff a i))
      ]
    ];
    spared = o.spared;
    foreign = λ a x p. elim (Bool-cases (a == i)) [
      | inl e ↦ o.foreign j x (ground arith)
      | inr e ↦ o.foreign a x (ground arith)
    ];
    compatible = o.compatible;
  }
