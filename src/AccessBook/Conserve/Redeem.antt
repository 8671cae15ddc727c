-- ===== src/AccessBook/Conserve/Redeem.antt =====
-- `redeem` and the invariant.
use gpu_batch_crypto.Prelude.{
  ℕ, ◌+◌, ◌≤◌, ◌<◌, ◌≡◌, refl, sym, ◌∙◌, inl, inr, true, false, Option, none, some, [], ◌∷◌, ◌++◌,
  text_eq, ok, arith, any, Bool-cases, Option-cases, text_eq_sound, text_eq_refl,
}
use gpu_batch_crypto.Sql.{select_first}
use gpu_batch_crypto.Sql.Laws.{select-holds, select-weaken, any-select_none, any-select_some}
use gpu_batch_crypto.Sql.Update.{any-update}
use gpu_batch_crypto.AccessBook.Checks.{
  denied, integer, max_units, key_revoked, bad_integer, unavailable, wrong_scope, already_redeemed,
}
use gpu_batch_crypto.Python.Values
use gpu_batch_crypto.AccessBook.Authority.{key_id}
use gpu_batch_crypto.AccessBook.Tables.{
  Book, Item, Receipt, Redemption, Db, of_id, of_parties, item_key, redemption_request,
  redemption_key, consume_row, update_accounts, update_books, update_publishers, insert_redemption,
}
use gpu_batch_crypto.AccessBook.Exec.{State, Env, now, draw}
use gpu_batch_crypto.AccessBook.Clearing.{
  RedeemArgs, key_ok, new_receipt, new_redemption, spend_item, redeem_new, matching_item, open_book,
}
use gpu_batch_crypto.AccessBook.Rows.{of_id-consume_row}
use gpu_batch_crypto.AccessBook.Invariant.{IsConserved}
use gpu_batch_crypto.AccessBook.Invariant.Redeem.{
  Redeemable, accounts_total, books_total, publishers_total, spend-IsConserved,
}
use gpu_batch_crypto.AccessBook.Hoare.{Post, IsDenial, Post-err, Post-ok, integer-cases}

-- The redemption that the n-th draw gives.
abbrev pub spent : Env → RedeemArgs → ℕ → Item → State → Redemption
spent env a at i s = new_redemption a i (new_receipt a i at (env.token_hex s.effects.draws))

-- What is known of the database where the item is spent.
pub record Spendable (env : Env) (a : RedeemArgs) (at : ℕ) (i : Item) (b : Book) (s : State)
    : Type 0 where
  pub conserved : IsConserved s.db
  pub redeemable : Redeemable s.db b i (spent env a at i s)
  pub fresh : any (redemption_request a.buyer a.request_id) s.db.redemptions ≡ false

-- The four statements go through.
pub spend_item-run :
    (env : Env) (a : RedeemArgs) (at : ℕ) (i : Item) (b : Book) (s : State)
    → Spendable env a at i b s
    → (db' : Db) × (spend_item env a at i s ≡ (
      ok (new_receipt a i at (env.token_hex s.effects.draws)),
      record s { db = db'; effects = record s.effects { draws = s.effects.draws + 1 } },
    ))
      × IsConserved db'
      × (db'.redemptions ≡ s.db.redemptions ++ spent env a at i s ∷ [])
unfolding spend_item draw update_accounts update_books update_publishers insert_redemption
    new_receipt new_redemption
spend_item-run env a at i b s h =
    let (accounts', wa) = accounts_total h.conserved h.redeemable in
    let (books', wb) = books_total h.conserved h.redeemable in
    let (publishers', wp) = publishers_total h.conserved h.redeemable in
    let hb =
      any-update (of_id b.id) (of_id b.id) (consume_row i.units) s.db.books
        (λ x y. of_id-consume_row x {y = y} i.units b.id) wb in
    let known =
      any-select_some (of_id b.id) (of_id b.id) s.db.books h.redeemable.found (text_eq_refl b.id) in
    (
      record s.db {
        accounts = accounts';
        books = books';
        publishers = publishers';
        redemptions = s.db.redemptions ++ spent env a at i s ∷ [];
      },
      ground (
        arith, wa, wb, wp, hb, known, h.redeemable.same_book, h.redeemable.same_resource,
        h.redeemable.same_buyer, h.redeemable.same_publisher, h.redeemable.unspent, h.fresh,
      ),
      spend-IsConserved h.conserved h.redeemable wa wb wp,
      refl,
    )

pub open_book-inv :
    (at : ℕ) (row : Option Book) {b : Book}
    → open_book at row ≡ some b
    → (row ≡ some b) × (b.active ≡ true) × (b.closed ≡ false) × (b.issued ≤ at) × (at < b.expires)
unfolding open_book
open_book-inv at none h = cc
open_book-inv at (some x) h = (ground arith, ground arith, ground arith, ground arith, ground arith)

matching_item-inv :
    (a : RedeemArgs) (row : Option Item) {i : Item}
    → matching_item a row ≡ some i
    → (row ≡ some i) × (i.content_sha256 ≡ a.content_sha256) × (i.terms_sha256 ≡ a.terms_sha256)
unfolding matching_item
matching_item-inv a none h = cc
matching_item-inv a (some x) {i} h = (
  ground arith,
  ground (arith, text_eq_sound x.content_sha256 a.content_sha256),
  ground (arith, text_eq_sound x.terms_sha256 a.terms_sha256),
)

module _ (env : Env) (a : RedeemArgs) (s : State) (inv : IsConserved s.db)
    (fresh : select_first (redemption_request a.buyer a.request_id) s.db.redemptions ≡ none) where
  spendable :
      (at : ℕ) (b : Book) (i : Item)
      → open_book at (select_first (of_parties a.book a.buyer a.publisher) s.db.books) ≡ some b
      → matching_item a (select_first (item_key a.book a.resource) s.db.items) ≡ some i
      → any (redemption_key a.book a.resource) s.db.redemptions ≡ false
      → Spendable env a at i b s
  unfolding new_redemption new_receipt
  spendable at b i eb ei unspent =
      let (row, _, is_open, _, _) = open_book-inv at _ eb in
      let parties = select-holds (of_parties a.book a.buyer a.publisher) s.db.books row in
      let (item, _, _) = matching_item-inv a _ ei in
      let key = select-holds (item_key a.book a.resource) s.db.items item in
      let id : b.id ≡ a.book = text_eq_sound b.id a.book (ground (arith, parties)) in
      let resource : i.resource ≡ a.resource =
        text_eq_sound i.resource a.resource (ground (arith, key)) in
      let found : select_first (of_id a.book) s.db.books ≡ some b =
        select-weaken (of_id a.book) (of_parties a.book a.buyer a.publisher) s.db.books
          (inv.book_ids a.book) (λ x t. ground arith) row in
      record {
        conserved = inv;
        redeemable = record {
          found = simp id found;
          is_open = is_open;
          listed = simp (id, resource) item;
          unspent = simp (id, resource) unspent;
          same_book = sym id;
          same_resource = sym resource;
          same_buyer = sym (text_eq_sound b.buyer a.buyer (ground (arith, parties)));
          same_publisher = sym (text_eq_sound b.publisher a.publisher (ground (arith, parties)));
          same_units = refl;
        };
        fresh = any-select_none (redemption_request a.buyer a.request_id) s.db.redemptions fresh;
      }

  -- A new redemption: what was checked on the way, and what is written.
  pub record Granted (receipt : Receipt) (db' : Db) : Type 0 where
    pub at : ℕ
    pub row : Book
    pub item : Item
    pub live : any (text_eq key_id) s.db.revoked_keys ≡ false
    pub opened :
        open_book at (select_first (of_parties a.book a.buyer a.publisher) s.db.books) ≡ some row
    pub matched : matching_item a (select_first (item_key a.book a.resource) s.db.items) ≡ some item
    pub unspent : any (redemption_key a.book a.resource) s.db.redemptions ≡ false
    pub conserved : IsConserved db'
    pub appended : db'.redemptions ≡ s.db.redemptions ++ new_redemption a item receipt ∷ []
    pub receipt_units : receipt.units ≡ item.units

  finish :
      (at : ℕ) (b : Book) (i : Item)
      → any (text_eq key_id) s.db.revoked_keys ≡ false
      → integer (Values.int (env.clock s.effects.readings)) 1 max_units ≡ ok at
      → open_book at (select_first (of_parties a.book a.buyer a.publisher) s.db.books) ≡ some b
      → matching_item a (select_first (item_key a.book a.resource) s.db.items) ≡ some i
      → any (redemption_key a.book a.resource) s.db.redemptions ≡ false
      → Post Granted IsDenial (redeem_new env a s)
  unfolding redeem_new key_ok now new_receipt
  finish at b i live reading opened matched unspent =
      let s1 : State = record s {
        effects = record s.effects { readings = s.effects.readings + 1 };
      } in
      let h = spendable at b i opened matched unspent in
      let (db', run, conserved, appended) =
        spend_item-run env a at i b s1
          (record { conserved = h.conserved; redeemable = h.redeemable; fresh = h.fresh }) in
      let reached : redeem_new env a s ≡ spend_item env a at i s1 =
        ground (arith, live, reading, opened, matched, unspent) in
      Post-ok Granted IsDenial (redeem_new env a s) _ _ (reached ∙ run) (record {
        at = at;
        row = b;
        item = i;
        live = live;
        opened = opened;
        matched = matched;
        unspent = unspent;
        conserved = conserved;
        appended = appended;
        receipt_units = refl;
      })

  pub redeem_new-Post : Post Granted IsDenial (redeem_new env a s)
  unfolding redeem_new key_ok now
  redeem_new-Post = elim (Bool-cases (any (text_eq key_id) s.db.revoked_keys)) [
    | inl revoked ↦
        Post-err Granted IsDenial (redeem_new env a s) {e = denied key_revoked}
          (ground (arith, revoked)) tt
    | inr live ↦ elim (integer-cases (Values.int (env.clock s.effects.readings)) 1 max_units) [
      | inl early ↦
          Post-err Granted IsDenial (redeem_new env a s) {e = denied bad_integer}
            (ground (arith, live, early)) tt
      | inr (at, reading, _, _) ↦
          elim (Option-cases
            (open_book at (select_first (of_parties a.book a.buyer a.publisher) s.db.books))) [
              | inl closed ↦
                  Post-err Granted IsDenial (redeem_new env a s) {e = denied unavailable}
                    (ground (arith, live, reading, closed)) tt
              | inr (b, opened) ↦
                  elim (Option-cases
                    (matching_item a (select_first (item_key a.book a.resource) s.db.items))) [
                      | inl mismatch ↦
                          Post-err Granted IsDenial (redeem_new env a s) {e = denied wrong_scope}
                            (ground (arith, live, reading, opened, mismatch)) tt
                      | inr (i, matched) ↦
                          elim (Bool-cases
                            (any (redemption_key a.book a.resource) s.db.redemptions)) [
                              | inl again ↦
                                  Post-err Granted IsDenial (redeem_new env a s)
                                    {e = denied already_redeemed}
                                    (ground (arith, live, reading, opened, matched, again)) tt
                              | inr unspent ↦ finish at b i live reading opened matched unspent
                            ]
                    ]
            ]
    ]
  ]
