-- ===== src/Examples/Llm.antt =====
-- Runs of internal/llm/server.go on concrete inputs.
use yuzu_agent_webrtc_toy.Prelude.{◌≡◌, refl, true, false, List, [], ◌∷◌, none, some, arith}
use yuzu_agent_webrtc_toy.Text.{Str, codes, str_eq, trim_space}
use yuzu_agent_webrtc_toy.Json.{text}
use yuzu_agent_webrtc_toy.LlmService.{
  token, sentence, error_message, Stream, lines_from, lines_of, next, field, has_prefix, to_string,
  is_sentence_boundary, on_content, on_usage, on_chunk, flush, on_event, event_loop,
}
use yuzu_agent_webrtc_toy.LlmService.Sse.{body_of, decode_all, decode_all-body_of}
use yuzu_agent_webrtc_toy.LlmService.Sentences.{Ended, event_loop-Ended}

decode_all-body_of_example :
    decode_all 3 (lines_of (body_of (codes "{}" ∷ (codes "[DONE]" ∷ []))))
    ≡ some (codes "{}" ∷ (codes "[DONE]" ∷ []))
unfolding trim_space
decode_all-body_of_example = decode_all-body_of (codes "{}" ∷ (codes "[DONE]" ∷ [])) (
  record {
    nonempty = refl;
    trimmed = refl;
    unbroken = (refl, (refl, tt));
    ascii = (omega arith, (omega arith, tt));
  },
  (
    record {
      nonempty = refl;
      trimmed = refl;
      unbroken = (refl, (refl, (refl, (refl, (refl, (refl, tt))))));
      ascii = (
        omega arith,
        (omega arith, (omega arith, (omega arith, (omega arith, (omega arith, tt))))),
      );
    },
    tt,
  ),
)

-- A parser for which each data is a content.
abbrev plain : Stream
plain = record {
  parse = λ d. some (record { has_choices = true; content = some (text d); usage = none });
  read_error = some (codes "reset");
  cancelled = λ n. false;
}

abbrev body : List Str
body = lines_of (body_of (codes "Hello." ∷ (codes "How are" ∷ [])))

answer_runs :
    event_loop 5 plain [] body
    ≡ some (
        token (codes "Hello.")
        ∷ (sentence (codes "Hello.")
            ∷ (token (codes "How are")
                ∷ (error_message (codes "stream") (codes "reset")
                    ∷ (sentence (codes "How are") ∷ [])))))
unfolding event_loop body_of lines_from on_event next trim_space field has_prefix str_eq on_chunk
    on_content to_string is_sentence_boundary on_usage flush
answer_runs = refl

event_loop-Ended_example : Ended [] plain (event_loop 5 plain [] body)
unfolding lines_from body_of
event_loop-Ended_example = event_loop-Ended 5 plain [] body (omega arith)
