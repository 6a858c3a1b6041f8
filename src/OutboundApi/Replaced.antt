-- ===== src/OutboundApi/Replaced.antt =====
-- The rows of outbounds that an update by id leaves alone.
use singboxconfig.Prelude.{
  Bool, true, false, not, ◌&&◌, List, [], ◌∷◌, ◌≡◌, refl, ◌∙◌, sym, ap, arith, equal, any, keep,
  if◌then◌else◌,
}
use singboxconfig.Prelude.Int.{ℤ, eqb_ℤ, eqb_ℤ_iff}
use singboxconfig.Prelude.Exec.{Result, ok}
use singboxconfig.Entity.{Outbound, outbound_source_manual}
use singboxconfig.Cache.Store.{CacheError, with_values}
use singboxconfig.OutboundApi.Rows.{find_outbound, replace_row}

abbrev pub is_manual : Outbound → Bool
is_manual row = equal row.source outbound_source_manual

-- The rows that are not manual.
abbrev pub fetched : List Outbound → List Outbound
fetched rows = keep (λ row. not (is_manual row)) rows

abbrev pub has_id : ℤ → List Outbound → Bool
has_id id rows = any (λ row. eqb_ℤ row.id id) rows

-- The id is the primary key.
abbrev pub are_distinct : List Outbound → Bool
are_distinct [] = true
are_distinct (row ∷ rows) = not (has_id row.id rows) && are_distinct rows

replace_row-absent :
    (item : Outbound) (rows : List Outbound)
    → has_id item.id rows ≡ false
    → replace_row item rows ≡ rows
unfolding replace_row any
replace_row-absent item [] h = refl
replace_row-absent item (row ∷ rows) h = ground (arith, replace_row-absent item rows)

ok-eq : (a b : Outbound) → ◌≡◌ {A = Result CacheError Outbound} (ok a) (ok b) → a ≡ b
ok-eq a b h = cc

pub fetched-replace_row :
    (item old : Outbound) (rows : List Outbound)
    → are_distinct rows ≡ true
    → find_outbound (λ row. eqb_ℤ row.id item.id) rows ≡ ok old
    → is_manual old ≡ true
    → is_manual item ≡ true
    → fetched (replace_row item rows) ≡ fetched rows
unfolding replace_row find_outbound keep with_values
fetched-replace_row item old [] d f o m = absurd (ground arith)
fetched-replace_row item old (row ∷ rows) d f o m =
    go (eqb_ℤ row.id item.id) refl f (fetched-replace_row item old rows)
  where
    go :
        (b : Bool)
        → eqb_ℤ row.id item.id ≡ b
        → (if b then ok row else find_outbound (λ row. eqb_ℤ row.id item.id) rows) ≡ ok old
        → (are_distinct rows ≡ true
            → find_outbound (λ row. eqb_ℤ row.id item.id) rows ≡ ok old
            → is_manual old ≡ true
            → is_manual item ≡ true
            → fetched (replace_row item rows) ≡ fetched rows)
        → fetched (
            if b
            then record (with_values row item) { tag = item.tag } ∷ replace_row item rows
            else row ∷ replace_row item rows)
          ≡ fetched (row ∷ rows)
    go true e h ih =
        let same : row ≡ old = ok-eq row old h in
        let id : row.id ≡ item.id = (eqb_ℤ_iff row.id item.id).0 e in
        let manual : is_manual row ≡ true = ap is_manual same ∙ o in
        let apart : has_id item.id rows ≡ false =
          ap (λ i. has_id i rows) (sym id) ∙ ground (arith) in
        let rest : replace_row item rows ≡ rows = replace_row-absent item rows apart in
        rw (manual, m) (ap fetched rest)
    go false e h ih =
        let apart : are_distinct rows ≡ true = ground (arith) in
        ap (λ q. if not (is_manual row) then row ∷ q else q) (ih apart h o m)

pub find_outbound-ok :
    (p : Outbound → Bool) (rows : List Outbound) (row : Outbound)
    → find_outbound p rows ≡ ok row
    → p row ≡ true
unfolding find_outbound
find_outbound-ok p [] row h = absurd (ground arith)
find_outbound-ok p (first ∷ rows) row h = go (p first) refl h (find_outbound-ok p rows row)
  where
    go :
        (b : Bool)
        → p first ≡ b
        → (if b then ok first else find_outbound p rows) ≡ ok row
        → (find_outbound p rows ≡ ok row → p row ≡ true)
        → p row ≡ true
    go true e h ih = ap p (sym (ok-eq first row h)) ∙ e
    go false e h ih = ih h
