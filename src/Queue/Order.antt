-- ===== src/Queue/Order.antt =====
-- The order in which threads that share a queue get what others add.
use cloud_node.Base.{
  length, length-append, nat_ord, text_ord, pair_ord, ◌+◌, ◌≡◌, refl, sym, ap, ◌∙◌, Option, none,
  some, List, [], ◌∷◌, ◌++◌, append-nil, append_assoc, arith,
}
use cloud_node.Queue.{add_item, get_item, get_size}

abbrev pub given {ℓ} : {T : Type ℓ} → Option T → List T
given none = []
given (some x) = x ∷ []

-- The queues that calls in any order lead to, with what was added and what was got so far.
pub data Reached {ℓ} {T : Type ℓ} : List T → List T → List T → Type ℓ where
  created : Reached [] [] []
  adds :
      (items added got : List T) (x : Option T)
      → Reached items added got
      → Reached (add_item x items) (added ++ given x) got
  gets :
      (items added got rest : List T) (x : T)
      → get_item items ≡ some (x, rest)
      → Reached items added got
      → Reached rest added (got ++ x ∷ [])

split-get_item {ℓ} :
    {T : Type ℓ} (items rest : List T) (x : T) → get_item items ≡ some (x, rest) → items ≡ x ∷ rest
unfolding get_item
split-get_item [] rest x h = absurd (cc)
split-get_item (y ∷ items) rest x h = cc

Reached-append {ℓ} :
    {T : Type ℓ} {items added got : List T} → Reached items added got → added ≡ got ++ items
unfolding add_item
Reached-append created = refl
Reached-append (adds items added got none r) = append-nil added ∙ Reached-append r
Reached-append (adds items added got (some x) r) =
    ap (λ l. l ++ x ∷ []) (Reached-append r) ∙ append_assoc got items (x ∷ [])
Reached-append (gets items added got rest x e r) =
    Reached-append r
    ∙ ap (λ l. got ++ l) (split-get_item items rest x e)
    ∙ sym (append_assoc got (x ∷ []) rest)

-- Whatever the order of the calls, the items that were added are those that were got, in the order
-- of adding, followed by those that wait; and the size is the number added less the number got.
pub Reached-fifo {ℓ} :
    {T : Type ℓ} {items added got : List T}
    → Reached items added got
    → (added ≡ got ++ items) × (get_size items + length got ≡ length added)
unfolding get_size
Reached-fifo {T} {items} {added} {got} r =
    (Reached-append r, omega (arith, ap length (Reached-append r), length-append {ℓ} got items))
