-- ===== src/Results/Arriving.antt =====
-- packages/api/src/lib/ai/pipeline.ts and routes/message-processing.ts: results arrive from workers,
-- from the console and from devices that hold a lease, in any order.
use telephone_booth_operator.Common.{ℕ, List}
use telephone_booth_operator.Store.{Db}
use telephone_booth_operator.Leases.Needs
use telephone_booth_operator.Leases.Needs.{WorkMessage}
use telephone_booth_operator.Leases.Completing.{complete}
use telephone_booth_operator.Leases.Submitting.{CompletionRequest}
use telephone_booth_operator.Leases.Recording.{complete-IsFresh}
use telephone_booth_operator.Results.{Runtime, Analysis}
use telephone_booth_operator.Results.Transcribing.{TranscriptionResult, record_transcription_result}
use telephone_booth_operator.Results.Translating.{TranslationResult, record_translation_result}
use telephone_booth_operator.Results.Moderating.{ModerationResult, record_moderation_result}
use telephone_booth_operator.Results.Fresh.{
  IsFresh, record_transcription_result-IsFresh, record_translation_result-IsFresh,
  record_moderation_result-IsFresh,
}

-- What comes in from workers and devices, in any order and with any contents.
pub data AnalysisHistory (r : Runtime) (a : Analysis) : Analysis → Type 0 where
  nothing : AnalysisHistory r a a
  and_transcription :
      (o : TranscriptionResult) (now : ℕ) (b : Analysis)
      → AnalysisHistory r a b
      → AnalysisHistory r a (record_transcription_result r o now b).0
  and_translation :
      (o : TranslationResult) (now : ℕ) (b : Analysis)
      → AnalysisHistory r a b
      → AnalysisHistory r a (record_translation_result r o now b).0
  and_moderation :
      (o : ModerationResult) (now : ℕ) (b : Analysis)
      → AnalysisHistory r a b
      → AnalysisHistory r a (record_moderation_result r o now b).0
  and_completion :
      (s : Needs.Runtime) (db : Db) (queue : List WorkMessage) (id : ℕ) (q : CompletionRequest)
      (b : Analysis)
      → AnalysisHistory r a b
      → AnalysisHistory r a (complete s r db queue b id q).1

-- However results are recorded for a message by these steps, one by one by the functions that record a
-- transcript, a translation or a verdict, or together when a device completes its work, every
-- moderation that is pending or has succeeded is about the latest transcription that succeeded, or
-- about none in particular, if that was so at first. The moderations that the console and the
-- server's own runs write themselves are not among the steps.
pub AnalysisHistory-IsFresh :
    (r : Runtime) {a b : Analysis} → IsFresh a → AnalysisHistory r a b → IsFresh b
AnalysisHistory-IsFresh r i nothing = i
AnalysisHistory-IsFresh r i (and_transcription o now b h) =
    record_transcription_result-IsFresh r now b (AnalysisHistory-IsFresh r i h) o
AnalysisHistory-IsFresh r i (and_translation o now b h) =
    record_translation_result-IsFresh r now b (AnalysisHistory-IsFresh r i h) o
AnalysisHistory-IsFresh r i (and_moderation o now b h) =
    record_moderation_result-IsFresh r now b (AnalysisHistory-IsFresh r i h) o
AnalysisHistory-IsFresh r i (and_completion s db queue id q b h) =
    complete-IsFresh r q s db queue b id (AnalysisHistory-IsFresh r i h)
