-- ===== src/Storage/Table.antt =====
-- packages/storage/src/table.ts: the rows of one table, and the statements that the store sends.
-- `findOne` takes the first row that fits, `updateRaw` rewrites every row that fits and returns
-- their number, and `delete` drops them. A where clause is a Boolean test of a row.
pub mod Rows
use universal_agent_protocol.Base.{
  ℕ, ◌+◌, Bool, Option, none, some, List, [], ◌∷◌, ◌++◌, if◌then◌else◌,
}

module _ {Row : Type 0} where
  unfoldable pub find_one : (Row → Bool) → List Row → Option Row
  find_one p [] = none
  find_one p (r ∷ rs) = if p r then some r else find_one p rs

  unfoldable pub find_many : (Row → Bool) → List Row → List Row
  find_many p [] = []
  find_many p (r ∷ rs) = if p r then r ∷ find_many p rs else find_many p rs

  unfoldable pub update_raw : (Row → Bool) → (Row → Row) → List Row → List Row × ℕ
  update_raw p f [] = ([], 0)
  update_raw p f (r ∷ rs) =
      let (rs', n) = update_raw p f rs in if p r then (f r ∷ rs', n + 1) else (r ∷ rs', n)

  unfoldable pub delete : (Row → Bool) → List Row → List Row × ℕ
  delete p [] = ([], 0)
  delete p (r ∷ rs) = let (rs', n) = delete p rs in if p r then (rs', n + 1) else (r ∷ rs', n)

  unfoldable pub insert : Row → List Row → List Row
  insert r rs = rs ++ r ∷ []
