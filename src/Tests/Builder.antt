-- ===== src/Tests/Builder.antt =====
-- Runs of the stream builder.
use treeline.Prelude.{ℕ, refl, true, List, [], ◌∷◌, arith}
use treeline.Builder.Model.{
  fed_first, fed_next, need_base, has_base, Item, Builder, offer_record, finish_stream,
  build_from_dataset,
}
use treeline.Builder.Records.{IsValid, Conserves}
use treeline.Builder.Conserve.{offer_record-Conserves}
use treeline.Builder.Finish.{Finishes, finish_stream-Finishes}
use treeline.Builder.Dataset.{build_from_dataset-Finishes}
use treeline.Tests.Tables.{diagonal}

-- Pages of two records, and segments of at most 32.
abbrev fresh : Builder diagonal ℕ
fresh = record {
  records_per_page_goal = 2;
  max_records_in_segment = 32;
  state = need_base;
  plr = 0;
  base_key = 0;
  processed_records = [];
}

abbrev with_two : Builder diagonal ℕ
with_two = record fresh {
  state = has_base;
  plr = 2;
  base_key = 5;
  processed_records = (5, 50) ∷ (6, 60) ∷ [];
}

with_two-IsValid : IsValid diagonal ℕ 2 with_two
with_two-IsValid = record {
  goal_is = refl;
  fits = refl;
  fed = λ e. fed_next 1 1 0 1 fed_first (omega arith) refl;
}

-- The key 9 is off the line.
offer_record-Conserves_example :
    Conserves diagonal ℕ 2
      ((5, 50) ∷ (6, 60) ∷ (9, 90) ∷ [])
      (offer_record diagonal ℕ 3 with_two (9, 90))
offer_record-Conserves_example =
    offer_record-Conserves diagonal ℕ 2 (omega arith) (omega arith) 3 with_two (9, 90)
      with_two-IsValid (omega arith) (omega arith)

finish_stream-Finishes_example :
    Finishes diagonal ℕ ((5, 50) ∷ (6, 60) ∷ []) (finish_stream diagonal ℕ 3 with_two)
finish_stream-Finishes_example =
    finish_stream-Finishes diagonal ℕ 2 (omega arith) (omega arith) 3 with_two with_two-IsValid
      (omega arith) (omega arith)

abbrev dataset : List (Item ℕ)
dataset = (5, 50) ∷ (6, 60) ∷ (9, 90) ∷ (11, 110) ∷ []

build_from_dataset-Finishes_example :
    Finishes diagonal ℕ ((0, 7) ∷ dataset) (build_from_dataset diagonal ℕ 6 fresh dataset true 7)
build_from_dataset-Finishes_example =
    build_from_dataset-Finishes diagonal ℕ 2 (omega arith) (omega arith) 6 fresh dataset true 7 refl
      (omega arith) (omega arith)
