-- ===== src/Store/Paging.antt =====
-- What `ListOrders` and `ListProducts` of webapp/backend/internal/repository/ return.
use mathlib.Core.List.{Permᴰ}
use mathlib.Core.List.Permᴰ.{nil, cons, swap, trans}
use snake_42tokyo_tuning.Base.{
  ℕ, zero, suc, ◌≡◌, refl, sym, ap, ◌∙◌, subst, Bool, true, false, ◌&&◌, List, [], ◌∷◌, ◌==◌,
  ==_iff, length, take, int_min, ltb, Bool-cases, inl, inr, Run, ok, Ends, value, error, arith,
}
use snake_42tokyo_tuning.Model.{Order, Product, Error, ListRequest}
use snake_42tokyo_tuning.Store.Db.{Tables, World, Env, M, query, continue, return}
use snake_42tokyo_tuning.Store.Leaves.{
  Leaves, done, failed, Unchanged, Leaves-bind, query-Unchanged,
}
use snake_42tokyo_tuning.Store.Listing.{
  Term, Server, syntax_error, page_of, skip, first_error, both, listed, order_terms, orders_of,
  list_orders,
}

-- The limit or the offset is negative.
abbrev pub Negative : ListRequest → Error → Type 0
Negative req e =
    (e ≡ syntax_error) × ((ltb req.page_size int_min && ltb req.offset int_min) ≡ false)

-- The answer to a list request: how many rows there are, and the rows of the page.
pub record IsPage {ℓ} {A : Type ℓ} (req : ListRequest) (sorted : List A) (answer : List A × ℕ)
    : Type ℓ where
  pub total : answer.1 ≡ length sorted
  pub rows : answer.0 ≡ take req.page_size (skip req.offset sorted)

page_of-Ends {ℓ} :
    {A : Type ℓ} (req : ListRequest) (rows : List A)
    → Ends
        (Negative req)
        (λ page. page ≡ take req.page_size (skip req.offset rows))
        (page_of req.page_size req.offset rows)
unfolding page_of
page_of-Ends req rows = elim (Bool-cases (ltb req.page_size int_min && ltb req.offset int_min)) [
  | inl fine ↦ rw fine (value refl)
  | inr negative ↦ rw negative (error (refl, negative))
]

length-Perm {ℓ} : {A : Type ℓ} {xs ys : List A} → Permᴰ xs ys → length xs ≡ length ys
length-Perm nil = refl
length-Perm (cons e h) = ap suc (length-Perm h)
length-Perm (swap e f) = refl
length-Perm (trans h k) = length-Perm h ∙ length-Perm k

take-skip_nil {ℓ} : {A : Type ℓ} (n m : ℕ) (xs : List A) → length xs ≡ 0 → take n (skip m xs) ≡ []
unfolding skip
take-skip_nil zero m [] h = refl
take-skip_nil (suc n) m [] h = refl
take-skip_nil n m (x ∷ xs) h = absurd (omega (arith, h))

Leaves-Ends {κ ℓ ν} :
    {X : Error → Type κ} {t : Tables} {A : Type ℓ} {P : A → Type ν} {r : Run Error A × World}
    → Leaves (λ e w'. X e × (w'.tables ≡ t)) (λ a w'. P a × (w'.tables ≡ t)) r
    → Ends X P r.0 × (r.1.tables ≡ t)
Leaves-Ends (done (p, same)) = (value p, same)
Leaves-Ends (failed (x, same)) = (error x, same)

module _ {κ ℓ ν ℓ' ν'} {X : Error → Type κ} {t : Tables} {A : Type ℓ} {P : A → Type ν} {B : Type ℓ'}
    {R : B → Type ν'} where
  -- The second statement runs whatever the first has answered.
  first_error-Leaves :
      (first : Bool) (r : Run Error A) (s : Run Error B × World)
      → Ends X P r
      → Leaves (λ e w'. X e × (w'.tables ≡ t)) (λ b w'. R b × (w'.tables ≡ t)) s
      → Leaves
          (λ e w'. X e × (w'.tables ≡ t))
          (λ p w'. (P p.0 × R p.1) × (w'.tables ≡ t))
          (first_error first r s.0, s.1)
  unfolding first_error
  first_error-Leaves first _ _ (value p) (done (q, same)) = done ((p, q), same)
  first_error-Leaves first _ _ (value p) (failed (x, same)) = failed (x, same)
  first_error-Leaves first _ _ (error x) (done (q, same)) = failed (x, same)
  first_error-Leaves true _ _ (error x) (failed (y, same)) = failed (x, same)
  first_error-Leaves false _ _ (error x) (failed (y, same)) = failed (y, same)

  both-Leaves :
      (first : Bool) (m : M A) (n : M B) (w : World)
      → Leaves (λ e w'. X e × (w'.tables ≡ t)) (λ a w'. P a × (w'.tables ≡ t)) (m w)
      → ((w' : World)
          → w'.tables ≡ t
          → Leaves (λ e w''. X e × (w''.tables ≡ t)) (λ b w''. R b × (w''.tables ≡ t)) (n w'))
      → Leaves
          (λ e w'. X e × (w'.tables ≡ t))
          (λ p w'. (P p.0 × R p.1) × (w'.tables ≡ t))
          (both first m n w)
  unfolding both
  both-Leaves first m n w h k =
      let (ends, same) = Leaves-Ends h in first_error-Leaves first _ _ ends (k (m w).1 same)

module _ {ℓ} {A : Type ℓ} (env : Env) (first : Bool) (req : ListRequest) (all : Tables → List A)
    (sort : List A → List A) where
  -- The two statements of a list.
  count_and_page : M (ℕ × List A)
  count_and_page =
      both first (query env (λ t. ok (length (all t))))
        (query env (λ t. page_of req.page_size req.offset (sort (all t))))

  listed-IsPage :
      (t : Tables) (n : ℕ) (rows : List A)
      → Permᴰ (sort (all t)) (all t)
      → n ≡ length (all t)
      → rows ≡ take req.page_size (skip req.offset (sort (all t)))
      → IsPage req (sort (all t)) (listed (n, rows))
  unfolding listed
  listed-IsPage t n rows h count page = elim (Bool-cases (n == 0)) [
    | inl empty ↦ rw empty (record {
      total = sym (zero_rows empty);
      rows = sym (take-skip_nil req.page_size req.offset (sort (all t)) (zero_rows empty));
    })
    | inr some_rows ↦ rw some_rows (record { total = count ∙ sym (length-Perm h); rows = page })
  ]
    where
      zero_rows : (n == 0) ≡ true → length (sort (all t)) ≡ 0
      zero_rows empty = length-Perm h ∙ sym count ∙ (==_iff n 0).0 empty

  list-IsPage :
      (w : World)
      → ((xs : List A) → Permᴰ (sort xs) xs)
      → Leaves
          (Unchanged env (Negative req) w.tables)
          (λ answer w'. IsPage req (sort (all w.tables)) answer × (w'.tables ≡ w.tables))
          (continue (count_and_page w) λ answers. return (listed answers))
  unfolding count_and_page
  list-IsPage w h =
      Leaves-bind
        (both-Leaves {R = λ page. page ≡ take req.page_size (skip req.offset (sort (all w.tables)))}
          first _ _ w
          (query-Unchanged env (Negative req) {P = λ n. n ≡ length (all w.tables)} _ w (value refl))
          λ w1 same.
            subst
              (λ t.
                Leaves (Unchanged env (Negative req) t)
                  (λ page w'.
                    (page ≡ take req.page_size (skip req.offset (sort (all t)))) × (w'.tables ≡ t))
                  (query env (λ t. page_of req.page_size req.offset (sort (all t))) w1))
              same
              (query-Unchanged env (Negative req) _ w1 (page_of-Ends req (sort (all w1.tables)))))
        λ answers w1 ((count, page), same).
          done (listed-IsPage w.tables answers.0 answers.1 (h (all w.tables)) count page, same)

-- The server's ORDER BY loses no row and makes none up.
pub record IsOrdering (server : Server) : Type 0 where
  pub orders : (terms : List Term) (xs : List Order) → Permᴰ (server.sort_orders terms xs) xs
  pub products : (terms : List Term) (xs : List Product) → Permᴰ (server.sort_products terms xs) xs

module _ (server : Server) (h : IsOrdering server) (env : Env) (first : Bool) where
  pub list_orders-IsPage :
      (user_id : ℕ) (req : ListRequest) (w : World)
      → Leaves
          (Unchanged env (Negative req) w.tables)
          (λ answer w'.
            IsPage req
              (server.sort_orders (order_terms req) (orders_of server user_id req w.tables))
              answer
            × (w'.tables ≡ w.tables))
          (list_orders server env first user_id req w)
  unfolding list_orders count_and_page
  list_orders-IsPage user_id req w =
      list-IsPage env first req (orders_of server user_id req)
        (server.sort_orders (order_terms req)) w (h.orders (order_terms req))
