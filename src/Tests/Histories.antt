-- ===== src/Tests/Histories.antt =====
-- A history of the sample: the end of the open era, and a draw after it.
use telephone_booth_operator.Common.{refl, none, some, arith}
use telephone_booth_operator.Store.{Db}
use telephone_booth_operator.Era.{find_installation}
use telephone_booth_operator.Installations.{end_era, end_installation}
use telephone_booth_operator.Installations.Settled.{IsConsistent}
use telephone_booth_operator.Questions.{draw_random}
use telephone_booth_operator.Questions.Editing.{find_question}
use telephone_booth_operator.Questions.Editing.Settled.{QuestionKeepsEra}
use telephone_booth_operator.History.{
  History, nothing_yet, next, Request, draw, end_by_hand, History-IsConsistent,
}
use telephone_booth_operator.Tests.Data.{sample}
use telephone_booth_operator.Tests.Eras.{sample-IsConsistent, ended_sample}

prompt-KeepsEra : QuestionKeepsEra sample sample 21
unfolding find_question
prompt-KeepsEra q h =
    ((λ k. ground (arith, k)), ((λ k. ground (arith, h)), ((λ k. ground (arith, k)), tt)))

ended_by_hand : Request sample ended_sample
unfolding end_installation end_era find_installation
ended_by_hand = end_by_hand sample ended_sample 2 300 none none none refl

abbrev after_draw : Db
after_draw = (draw_random (λ n. 0) ended_sample (some 9)).0

a-History : History sample after_draw
a-History = next (next nothing_yet ended_by_hand) (draw (λ n. 0) (some 9))

History-IsConsistent_example : IsConsistent after_draw
History-IsConsistent_example = History-IsConsistent sample-IsConsistent a-History
