-- ===== src/AccessBook/Conserve/Issue.antt =====
-- `issue` and the invariant; what a new book is made of.
use gpu_batch_crypto.Prelude.{
  Result-cases, Returns, Returns-bind, Returns-ok, map_result, raise_if, Bytes, ℕ, ◌≤◌, ◌≡◌, refl,
  ap, ◌∙◌, inl, inr, true, false, Option, none, some, List, [], ◌∷◌, ◌++◌, map, Text, text_eq, ok,
  err, arith, any, All, ltb, Bool-cases, Option-cases, text_eq_sound,
}
use mathlib.Core.Path.{subst}
use gpu_batch_crypto.Python.Values
use gpu_batch_crypto.Python.Json.{text_le}
use gpu_batch_crypto.Python.Values.{Value}
use gpu_batch_crypto.Sql.{select_first, update_where}
use gpu_batch_crypto.Sql.Laws.{All-select, select-holds}
use gpu_batch_crypto.AccessBook.Checks.{
  Error, identifier, max_ttl, duplicate_resource, denied, integer, max_units, canonical, Offer,
  no_offer, over_budget, no_funds, bad_integer, issue_conflict, integrity,
}
use gpu_batch_crypto.AccessBook.Tables.{
  Account, Book, Publisher, Db, of_id, of_buyer, of_request, offer_key, reserve_row,
  update_accounts, insert_book, insert_items,
}
use gpu_batch_crypto.AccessBook.Exec.{State, Env, now, draw}
use gpu_batch_crypto.AccessBook.Authority.{sign, claims_json}
use gpu_batch_crypto.AccessBook.Clearing.{
  sorted, insert_text, check_resources, resource_list, has_duplicate, IssueArgs, IssueRequest,
  check_issue, current_offers, total_units, to_item, new_book, book_claims, issue_new, same_issue,
  covers,
}
use gpu_batch_crypto.AccessBook.Invariant.{IsConserved, HasPublisher}
use gpu_batch_crypto.AccessBook.Invariant.Issue.{
  insert_items-items, insert_items-keys, issue-IsConserved,
}
use gpu_batch_crypto.AccessBook.Hoare.{
  Post, Post-mono, Post-err, Post-ok, Post-ok_db, AnyError, integer-cases,
}

-- An offer for each resource, of the publisher that was asked for.
known_publisher :
    (publishers : List Publisher) (at : ℕ) (publisher r : Text) (rs : List Text)
    (table : List Offer) {offers : List Offer}
    → current_offers at publisher (r ∷ rs) table ≡ some offers
    → All (λ (o : Offer). HasPublisher publishers o.publisher) table
    → HasPublisher publishers publisher
unfolding current_offers
known_publisher publishers at publisher r rs table h rows =
    elim (Option-cases (select_first (offer_key publisher r) table)) [
      | inl e ↦ absurd (ground (arith, e))
      | inr (o, e) ↦
          let key = select-holds (offer_key publisher r) table e in
          let same : o.publisher ≡ publisher =
            text_eq_sound o.publisher publisher (ground (arith, key)) in
          subst (HasPublisher publishers) same (
            All-select (λ (o : Offer). HasPublisher publishers o.publisher) (offer_key publisher r)
              table rows e)
    ]

insert_book-inv :
    (b : Book) (db : Db) {db' : Db}
    → insert_book b db ≡ some db'
    → (any (of_id b.id) db.books ≡ false)
      × (any (of_request b.buyer b.request_id) db.books ≡ false)
      × (any (of_buyer b.buyer) db.accounts ≡ true)
      × (db' ≡ record db { books = db.books ++ b ∷ [] })
unfolding insert_book
insert_book-inv b db h = (ground arith, ground arith, ground arith, ground arith)

-- A new book: the offers that it is made of, and what is written.
pub record Issued (env : Env) (a : IssueArgs) (s : State) (made : Text × Text) (db' : Db)
    : Type 0 where
  pub at : ℕ
  pub offers : List Offer
  pub found : current_offers at a.publisher a.resources s.db.offers ≡ some offers
  pub within : total_units offers ≤ a.max_units
  pub reserved :
      update_where (of_buyer a.buyer) (reserve_row (total_units offers)) s.db.accounts
      ≡ some db'.accounts
  pub books : db'.books ≡ s.db.books ++ new_book env a at offers made.0 made.1 ∷ []
  pub items : db'.items ≡ s.db.items ++ map (to_item made.0) offers
  pub redemptions : db'.redemptions ≡ s.db.redemptions
  pub conserved : IsConserved db'

module _ (env : Env) (a : IssueArgs) (r : Text) (rs : List Text) (s : State)
    (inv : IsConserved s.db) (asked : a.resources ≡ r ∷ rs) where
  -- The last three statements and the token.
  written :
      (at : ℕ) (offers : List Offer) (accounts' : List Account) (token : Text) (db2 db3 : Db)
      → current_offers at a.publisher a.resources s.db.offers ≡ some offers
      → ltb a.max_units (total_units offers) ≡ false
      → update_where (of_buyer a.buyer) (reserve_row (total_units offers)) s.db.accounts
        ≡ some accounts'
      → insert_book
          (new_book env a at offers (env.token_hex s.effects.draws) token)
          (record s.db { accounts = accounts' })
        ≡ some db2
      → insert_items (map (to_item (env.token_hex s.effects.draws)) offers) db2 ≡ some db3
      → Issued env a s (env.token_hex s.effects.draws, token) db3
  unfolding new_book
  written at offers accounts' token db2 db3 found within reserved booked itemised =
      let id = env.token_hex s.effects.draws in
      let b = new_book env a at offers id token in
      let (is_new, _, buyer, e2) =
        insert_book-inv b (record s.db { accounts = accounts' }) booked in
      let e3 : db3 ≡ record db2 { items = db2.items ++ map (to_item id) offers } =
        insert_items-items (map (to_item id) offers) db2 itemised in
      let old : db2.items ≡ s.db.items = ap (λ (d : Db). d.items) e2 in
      let whole : db3 ≡ record s.db {
        accounts = accounts';
        books = s.db.books ++ b ∷ [];
        items = s.db.items ++ map (to_item id) offers;
      } =
        e3 ∙ ap (λ (d : Db). record d { items = d.items ++ map (to_item id) offers }) e2 in
      let keys = λ (book resource : Text).
        insert_items-keys (map (to_item id) offers) db2 book resource itemised
          (rw old (inv.item_keys book resource)) in
      let publisher =
        known_publisher s.db.publishers at a.publisher r rs s.db.offers
          (subst (λ rs. current_offers at a.publisher rs s.db.offers ≡ some offers) asked found)
          inv.offer_publishers in
      record {
        at = at;
        offers = offers;
        found = found;
        within = ground arith;
        reserved = rw whole reserved;
        books = ap (λ (d : Db). d.books) whole;
        items = ap (λ (d : Db). d.items) whole;
        redemptions = ap (λ (d : Db). d.redemptions) whole;
        conserved = rw whole (
            issue-IsConserved inv b offers is_new refl refl publisher reserved buyer
              (λ book resource. rw (← ap (λ (d : Db). d.items) whole) (keys book resource)));
      }

  failed :
      {e : Error}
      → (issue_new env a s).0 ≡ err e
      → Post (Issued env a s) AnyError (issue_new env a s)
  failed h = Post-err (Issued env a s) AnyError (issue_new env a s) h tt

  -- From the reservation on.
  after_reservation :
      (at : ℕ) (offers : List Offer)
      → integer (Values.int (env.clock s.effects.readings)) 1 max_units ≡ ok at
      → current_offers at a.publisher a.resources s.db.offers ≡ some offers
      → ltb a.max_units (total_units offers) ≡ false
      → any (covers a.buyer (total_units offers)) s.db.accounts ≡ true
      → Post (Issued env a s) AnyError (issue_new env a s)
  unfolding issue_new now update_accounts draw sign
  after_reservation at offers reading found within funded =
      let id = env.token_hex s.effects.draws in
      let payload = canonical (claims_json (book_claims env a at offers id)) in
      elim (Option-cases
        (update_where (of_buyer a.buyer) (reserve_row (total_units offers)) s.db.accounts)) [
          | inl refused ↦
              failed {e = integrity} (ground (arith, reading, found, within, funded, refused))
          | inr (accounts', reserved) ↦ elim (Result-cases (sign env payload s).0) [
            | inl (e, unsigned) ↦
                failed {e = e} (ground (arith, reading, found, within, funded, reserved, unsigned))
            | inr (token, signed) ↦
                elim (Option-cases (
                  insert_book (new_book env a at offers id token)
                    (record s.db { accounts = accounts' }))) [
                      | inl refused ↦ failed {e = integrity} (
                          ground (arith, reading, found, within, funded, reserved, signed, refused))
                      | inr (db2, booked) ↦
                          elim (Option-cases (insert_items (map (to_item id) offers) db2)) [
                            | inl refused ↦ failed {e = integrity} (
                                ground (
                                  arith, reading, found, within, funded, reserved, signed, booked,
                                  refused,
                                ))
                            | inr (db3, itemised) ↦
                                Post-ok_db (Issued env a s) AnyError (issue_new env a s) (id, token)
                                  db3
                                  (ground (
                                    arith, reading, found, within, funded, reserved, signed, booked,
                                    itemised,
                                  ))
                                  (ground (
                                    arith, reading, found, within, funded, reserved, signed, booked,
                                    itemised,
                                  ))
                                  (written at offers accounts' token db2 db3 found within reserved
                                    booked itemised)
                          ]
                    ]
          ]
        ]

  pub issue_new-Post : Post (Issued env a s) AnyError (issue_new env a s)
  unfolding issue_new now
  issue_new-Post = elim (integer-cases (Values.int (env.clock s.effects.readings)) 1 max_units) [
    | inl early ↦ failed {e = denied bad_integer} (ground (arith, early))
    | inr (at, reading, _, _) ↦
        elim (Option-cases (current_offers at a.publisher a.resources s.db.offers)) [
          | inl missing ↦ failed {e = denied no_offer} (ground (arith, reading, missing))
          | inr (offers, found) ↦ elim (Bool-cases (ltb a.max_units (total_units offers))) [
            | inl over ↦ failed {e = denied over_budget} (ground (arith, reading, found, over))
            | inr within ↦
                elim (Bool-cases (any (covers a.buyer (total_units offers)) s.db.accounts)) [
                  | inl funded ↦ after_reservation at offers reading found within funded
                  | inr short ↦
                      failed {e = denied no_funds} (ground (arith, reading, found, within, short))
                ]
          ]
        ]
  ]

  pub same_issue-Keeps :
      (prior : Option Book) → Post (λ _ db. IsConserved db) AnyError (same_issue env a prior s)
  unfolding same_issue
  same_issue-Keeps none =
      Post-mono (λ _ db. IsConserved db) AnyError (Issued env a s) (issue_new env a s)
        (λ made db h. h.conserved) issue_new-Post
  same_issue-Keeps (some b) = elim (Bool-cases (text_eq b.request_hash a.request_hash)) [
    | inl t ↦ Post-ok (λ _ db. IsConserved db) AnyError _ (b.id, b.token) s (ground (arith, t)) inv
    | inr t ↦
        Post-err (λ _ db. IsConserved db) AnyError _ {e = denied issue_conflict} (ground (arith, t))
          tt
  ]

sorted-cons :
    (t : Text) (ts : List Text) → (u : Text) × (us : List Text) × (sorted (t ∷ ts) ≡ u ∷ us)
unfolding sorted
sorted-cons t ts = inserted t (sorted ts)
  where
    inserted :
        (t : Text) (ts : List Text) → (u : Text) × (us : List Text) × (insert_text t ts ≡ u ∷ us)
    inserted t [] = (t, [], refl)
    inserted t (u ∷ us) = elim (Bool-cases (text_le t u)) [
      | inl e ↦ (t, u ∷ us, rw e)
      | inr e ↦ (u, insert_text t us, rw e)
    ]

abbrev pub IsNonempty : List Text → Type 0
IsNonempty ts = (u : Text) × (us : List Text) × (ts ≡ u ∷ us)

sorted-IsNonempty : (ts : List Text) → IsNonempty ts → IsNonempty (sorted ts)
sorted-IsNonempty ts (u, us, e) = rw e (sorted-cons u us)

identifiers-IsNonempty :
    (v : Value) (vs : List Value) → Returns IsNonempty (map_result identifier (v ∷ vs))
identifiers-IsNonempty v vs =
    Returns-bind IsNonempty (identifier v) _
      (λ t _. Returns-bind IsNonempty (map_result identifier vs) _ (λ ts _. (t, ts, refl)))

check_resources-IsNonempty :
    (resources : Option (List Value)) → Returns IsNonempty (check_resources resources)
unfolding check_resources resource_list
check_resources-IsNonempty resources =
    Returns-bind IsNonempty (resource_list resources) _ (λ given e.
      Returns-bind IsNonempty (map_result identifier given) _ (λ names e'.
        Returns-bind IsNonempty
          (raise_if (has_duplicate (sorted names)) (denied duplicate_resource)) _
          (λ _ _. sorted-IsNonempty names (
            Returns-ok IsNonempty (map_result identifier given) (given-nonempty resources given e)
              e'))))
  where
    given-nonempty :
        (resources : Option (List Value)) (given : List Value)
        → resource_list resources ≡ ok given
        → Returns IsNonempty (map_result identifier given)
    given-nonempty none given e = cc
    given-nonempty (some []) given e = cc
    given-nonempty (some (v ∷ vs)) given e =
        let q : v ∷ vs ≡ given = ground (arith, e) in rw (← q) (identifiers-IsNonempty v vs)

-- The checks let through at least one resource.
pub check_issue-IsNonempty :
    (sha256 : Bytes → Bytes) (q : IssueRequest)
    → Returns (λ (a : IssueArgs). IsNonempty a.resources) (check_issue sha256 q)
unfolding check_issue
check_issue-IsNonempty sha256 q =
    let P = λ (a : IssueArgs). IsNonempty a.resources in
    Returns-bind P (identifier q.buyer) _ (λ _ _. Returns-bind P (identifier q.publisher) _ (λ _ _.
      Returns-bind P (identifier q.request_id) _ (λ _ _.
        Returns-bind P (integer q.max_units 1 max_units) _ (λ _ _.
          Returns-bind P (integer q.ttl 1 max_ttl) _ (λ _ _.
            Returns-bind P (check_resources q.resources) _ (λ rs e.
              Returns-ok IsNonempty (check_resources q.resources)
                (check_resources-IsNonempty q.resources) e))))))
