-- ===== src/HttpAccess/Grows/Spend.antt =====
-- The commit of `issue`, and `spend`, of examples/http_access/ledger.py take nothing back.
use gpu_batch_crypto.Prelude.{
  ℕ, refl, ap, not, Option, none, some, List, [], ◌∷◌, map, Text, text_eq, any, raise_if, ltb, leb,
  ◌&&◌, ◌+◌, ◌==◌, Returns, Returns-bind, Returns-mono, Returns-ok,
}
use gpu_batch_crypto.Sql.{select_first}
use gpu_batch_crypto.HttpAccess.Checks.{
  Catalog, denied, over_budget, expired_preparing, revoked_preparing, no_funds,
}
use gpu_batch_crypto.HttpAccess.Tables.{
  Issued, Receipt, Db, of_buyer, covers, spend_request, buy_row, spend_row, consume_row,
  reserve_row, update_accounts, update_books, insert_book, insert_items, insert_issue,
  insert_receipt, accrue,
}
use gpu_batch_crypto.HttpAccess.Ledger.{
  Prepared, Clearing, SpendRequest, SpendArgs, written, transaction, insert_books, new_book,
  to_item, issue_row, issue_new, commit_body, issue_commit, row_count, prior, issue_row_of,
  check_book, charge, receipt_row, spend_new, spend_body, spend, check_spend,
}
use gpu_batch_crypto.HttpAccess.Bodies.{
  written-ok, written-Returns, unless_prior-Returns, with_args-keeps, insert_issue-inv,
  insert_items-inv,
}
use gpu_batch_crypto.HttpAccess.Grows.{
  Body-Grows, transaction-Grows, Grows, Grows-refl, Grows-trans, Grows-same, consume_row-Closing,
  update_accounts-Grows, update_books-Grows, insert_book-Grows, insert_receipt-Grows, written-Grows,
}

-- The loop of `issue` over the books.
insert_books-Grows :
    (p : Prepared) (xs : List Issued) (db : Db) → Returns (Grows db) (insert_books p xs db)
unfolding insert_books
insert_books-Grows p [] db = Grows-refl db
insert_books-Grows p (x ∷ xs) db =
    Returns-bind (Grows db) (written (insert_book (new_book p x) db)) _ (λ d₁ e₁.
      Returns-bind (Grows db) (written (insert_items (map (to_item x.book) x.manifest) d₁)) _
        (λ d₂ e₂.
          let same =
            insert_items-inv (map (to_item x.book) x.manifest) d₁ {db' = d₂} (written-ok _ e₂) in
          let g : Grows d₁ d₂ =
            Grows-same d₁ d₂ (ap (λ (d : Db). d.books) same) (ap (λ (d : Db). d.receipts) same) in
          Returns-mono (Grows d₂) (Grows db) (insert_books p xs d₂)
            (λ d₃ h.
              Grows-trans db d₁ d₃ (insert_book-Grows db (new_book p x) (written-ok _ e₁))
                (Grows-trans d₁ d₂ d₃ g h))
            (insert_books-Grows p xs d₂)))

issue_new-Grows : (p : Prepared) (later : ℕ) → Body-Grows (issue_new p later)
unfolding issue_new
issue_new-Grows p later db =
    Returns-bind P
      (raise_if (not (leb p.at later && ltb later (p.at + p.ttl))) (denied expired_preparing)) _
      (λ _ _.
        Returns-bind P (raise_if (any (text_eq p.kid) db.revoked) (denied revoked_preparing)) _
          (λ _ _.
            written-Grows db _ (update_accounts (reserve_row p.total) (covers p.buyer p.total) db)
              (λ d e. update_accounts-Grows db (reserve_row p.total) (covers p.buyer p.total) e)
              (λ d₁.
                Returns-bind (λ (x : List Issued × Db). Grows d₁ x.1)
                  (raise_if (not (row_count (covers p.buyer p.total) db.accounts == 1))
                    (denied no_funds))
                  _
                  (λ _ _.
                    Returns-bind (λ (x : List Issued × Db). Grows d₁ x.1)
                      (insert_books p p.response d₁) _
                      (λ d₂ e₂.
                        let g : Grows d₁ d₂ =
                          Returns-ok (Grows d₁) _ (insert_books-Grows p p.response d₁) e₂ in
                        Returns-bind (λ (x : List Issued × Db). Grows d₁ x.1)
                          (written (insert_issue (issue_row p) d₂)) _
                          (λ d₃ e₃.
                            let same = insert_issue-inv d₂ (issue_row p) (written-ok _ e₃) in
                            Grows-trans d₁ d₂ d₃ g (
                              Grows-same d₂ d₃ (ap (λ (d : Db). d.books) same)
                                (ap (λ (d : Db). d.receipts) same))))))))
  where
    P : List Issued × Db → Type 0
    P x = Grows db x.1

pub issue_commit-Grows : (p : Prepared) (later : ℕ) (db : Db) → Grows db (issue_commit p later db).1
unfolding issue_commit commit_body
issue_commit-Grows p later db =
    transaction-Grows (commit_body p later)
      (λ d.
        Returns-bind (λ (x : List Issued × Db). Grows d x.1)
          (prior (λ r. r.fingerprint) (λ r. r.response) (issue_row_of p.buyer p.request_id d)
            p.fingerprint)
          _
          (λ earlier _.
            unless_prior-Returns (Grows d) earlier (issue_new p later) d (Grows-refl d)
              (issue_new-Grows p later d)))
      db

charge-Grows :
    (env : Clearing) (a : SpendArgs) (book : Option Text) (db : Db)
    → Returns (Grows db) (charge env a book db)
unfolding charge
charge-Grows env a none db =
    Returns-bind (Grows db)
      (written (update_accounts (buy_row a.offer.units) (covers a.buyer a.offer.units) db)) _
      (λ d e.
        Returns-bind (Grows db)
          (raise_if (not (row_count (covers a.buyer a.offer.units) db.accounts == 1))
            (denied no_funds))
          _
          (λ _ _.
            update_accounts-Grows db (buy_row a.offer.units) (covers a.buyer a.offer.units)
              (written-ok _ e)))
charge-Grows env a (some book) db = Returns-bind (Grows db) (check_book env a book db) _ (λ _ _.
    Returns-bind (Grows db) (written (update_books (consume_row a.offer.units) book db)) _ (λ d₁ e₁.
      written-Returns (Grows db) _ (λ d₂ e₂.
        Grows-trans db d₁ d₂
          (update_books-Grows db (consume_row a.offer.units) book
            (consume_row-Closing a.offer.units) (written-ok _ e₁))
          (update_accounts-Grows d₁ (spend_row a.offer.units) (of_buyer a.buyer) e₂))))

spend_new-Grows : (env : Clearing) (a : SpendArgs) → Body-Grows (spend_new env a)
unfolding spend_new accrue
spend_new-Grows env a db =
    Returns-bind P (raise_if (ltb a.max_units a.offer.units) (denied over_budget)) _ (λ _ _.
      Returns-bind P (charge env a a.book db) _ (λ d₁ e₁.
        Returns-bind P (written (insert_receipt (receipt_row env a) d₁)) _ (λ d₂ e₂.
          let d₃ = accrue a.offer.units d₂ in
          Grows-trans db d₁ d₃ (Returns-ok (Grows db) _ (charge-Grows env a a.book db) e₁) (
            Grows-trans d₁ d₂ d₃ (insert_receipt-Grows d₁ (receipt_row env a) (written-ok _ e₂))
              (Grows-same d₂ d₃ refl refl)))))
  where
    P : Receipt × Db → Type 0
    P x = Grows db x.1

pub spend-Grows :
    (env : Clearing) (catalog : Catalog) (r : SpendRequest) (db : Db)
    → Grows db (spend env catalog r db).1
unfolding spend spend_body
spend-Grows env catalog r db =
    with_args-keeps (Grows db) (check_spend env.sha256 catalog r)
      (λ a. transaction (spend_body env a)) db (Grows-refl db)
      (λ a _.
        transaction-Grows (spend_body env a)
          (λ d.
            Returns-bind (λ (x : Receipt × Db). Grows d x.1)
              (prior (λ r. r.fingerprint) (λ r. r.response)
                (select_first (spend_request a.buyer a.request_id) d.receipts) a.fingerprint)
              _
              (λ earlier _.
                unless_prior-Returns (Grows d) earlier (spend_new env a) d (Grows-refl d)
                  (spend_new-Grows env a d)))
          db)
