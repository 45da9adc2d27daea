-- ===== src/Tests/Messages.antt =====
-- The theorems on messages and sessions at work.
use uhmi_ivi_wm.Base.{
  Among, inl, inr, ℕ, ◌+◌, List, [], ◌∷◌, ◌++◌, ◌≡◌, refl, some, none, arith, take, true,
}
use uhmi_ivi_wm.Exec.{pure, fault, ◌>>◌, success}
use uhmi_ivi_wm.Jansson.{pos, Jansson}
use uhmi_ivi_wm.Receiver.{
  send_body_size_to_server, bytes, failed, zeros, acquire_body_from_client,
  acquire_body_size_from_client, magic_code, htonl, of_int, little_endian,
}
use uhmi_ivi_wm.Receiver.Body.{
  joined, arriving, after, acquire_body_from_client-joined, acquire_body_from_client-failed,
  acquire_body_from_client-short,
}
use uhmi_ivi_wm.Receiver.Session.{open_with, acquire_body_size_from_client-send_body_size_to_server}
use uhmi_ivi_wm.Request.{refused, message, receive_request}
use uhmi_ivi_wm.Options.{path, parse_option}
use uhmi_ivi_wm.Parser.{parser_parse_recv_command}
use uhmi_ivi_wm.EventLoop.{receive_command}
use uhmi_ivi_wm.EventLoop.Refused.{Answer, without_magic, with_other_text, receive_command-refused}
use uhmi_ivi_wm.Client.{shown, main, parse_client_options}
use uhmi_ivi_wm.Client.RoundTrip.{stream, done, send_request-stream, receive_request-stream}
use uhmi_ivi_wm.Client.Served.{
  receive_command-send_request, receive_command-overflow, main-answered,
}
use uhmi_ivi_wm.Tests.World.{Value, world, jansson_with, layer_document}

-- The stack holds what the functions do not set.
abbrev pub stack : List ℕ
stack = 1 ∷ 2 ∷ 3 ∷ 4 ∷ []

abbrev cut : List (List ℕ)
cut = (123 ∷ 34 ∷ []) ∷ (34 ∷ []) ∷ (58 ∷ 49 ∷ 125 ∷ []) ∷ []

acquire_body_from_client-joined_example :
    acquire_body_from_client 4
      (record { incoming = arriving cut (bytes (7 ∷ []) ∷ []); refused = []; outgoing = [] })
    ≡ some (
      take 4 (joined cut) ++ 0 ∷ [],
      record {
        incoming = arriving (after 4 cut) (bytes (7 ∷ []) ∷ []);
        refused = [];
        outgoing = [];
      },
    )
acquire_body_from_client-joined_example =
    acquire_body_from_client-joined 4 cut (bytes (7 ∷ []) ∷ []) [] []
      (omega arith, (omega arith, (omega arith, tt))) (omega arith) (omega arith)

acquire_body_from_client-failed_example :
    acquire_body_from_client 6
      (record { incoming = failed ∷ arriving cut []; refused = []; outgoing = [] })
    ≡ some (zeros (6 + 1), record { incoming = arriving cut []; refused = []; outgoing = [] })
acquire_body_from_client-failed_example =
    acquire_body_from_client-failed 6 (arriving cut []) [] [] (omega arith) (omega arith)

abbrev hung_up : List (List ℕ)
hung_up = (123 ∷ 34 ∷ []) ∷ [] ∷ [] ∷ []

acquire_body_from_client-short_example :
    acquire_body_from_client 6
      (record { incoming = arriving hung_up []; refused = []; outgoing = [] })
    ≡ none
acquire_body_from_client-short_example =
    acquire_body_from_client-short 6 hung_up [] [] (omega arith) (omega arith)

acquire_body_size_from_client-send_body_size_to_server_example :
    (field : List ℕ) × (send_body_size_to_server 70000
        (record { incoming = []; refused = []; outgoing = [] })
      ≡ some (success, record { incoming = []; refused = []; outgoing = [] ++ field }))
    × (acquire_body_size_from_client stack (open_with ((field ++ 9 ∷ []) ∷ []) [] [])
        ≡ some (pos 70000, open_with (after 4 ((field ++ 9 ∷ []) ∷ [])) [] []))
acquire_body_size_from_client-send_body_size_to_server_example =
    acquire_body_size_from_client-send_body_size_to_server stack 70000 (9 ∷ []) [] [] [] [] [] refl
      (omega arith)

-- A session for the command "5", cut after its first byte of the body.
abbrev pub layer_5_pieces : List (List ℕ)
layer_5_pieces = magic_code ∷ (0 ∷ 0 ∷ 0 ∷ 2 ∷ 53 ∷ []) ∷ (0 ∷ []) ∷ []

abbrev pub surface_10_pieces : List (List ℕ)
surface_10_pieces = magic_code ∷ (0 ∷ 0 ∷ 0 ∷ 3 ∷ []) ∷ (49 ∷ 48 ∷ 0 ∷ []) ∷ []

pub layer_5-message :
    receive_request stack stack (open_with layer_5_pieces [] [])
    ≡ some (message (53 ∷ 0 ∷ 0 ∷ []), open_with [] [] magic_code)
unfolding htonl after
layer_5-message =
    receive_request-stream (53 ∷ []) layer_5_pieces (omega arith, (omega arith, (omega arith, tt)))
      (omega arith, omega arith) refl stack stack [] [] refl refl (omega arith)

pub surface_10-message :
    receive_request stack stack (open_with surface_10_pieces [] [])
    ≡ some (message (49 ∷ 48 ∷ 0 ∷ 0 ∷ []), open_with [] [] magic_code)
unfolding htonl after
surface_10-message =
    receive_request-stream (49 ∷ 48 ∷ []) surface_10_pieces
      (omega arith, (omega arith, (omega arith, tt))) (omega arith, omega arith) refl stack stack []
      [] refl refl (omega arith)

pub layer_5-received :
    receive_command world stack stack (open_with layer_5_pieces [] [])
    ≡ some (
        parser_parse_recv_command world "layer 5"
        >> pure (open_with [] [] (([] ++ magic_code) ++ htonl (of_int (pos 0)))))
unfolding htonl after
layer_5-received =
    receive_command-send_request world stack stack refl refl (53 ∷ []) _ layer_5_pieces [] []
      ((λ e. omega (arith, e)), tt) (omega arith)
      (send_request-stream (53 ∷ []) [] [] (omega arith)) refl
      (omega arith, (omega arith, (omega arith, tt))) (omega arith, omega arith)

pub surface_10-received :
    receive_command world stack stack (open_with surface_10_pieces [] [])
    ≡ some (
        parser_parse_recv_command world "surface 10"
        >> pure (open_with [] [] (([] ++ magic_code) ++ htonl (of_int (pos 0)))))
unfolding htonl after
surface_10-received =
    receive_command-send_request world stack stack refl refl (49 ∷ 48 ∷ []) _ surface_10_pieces []
      [] ((λ e. omega (arith, e)), ((λ e. omega (arith, e)), tt)) (omega arith)
      (send_request-stream (49 ∷ 48 ∷ []) [] [] (omega arith)) refl
      (omega arith, (omega arith, (omega arith, tt))) (omega arith, omega arith)

-- The answer to an earlier command has gone out on the connection.
receive_command-send_request_example :
    receive_command world stack stack (open_with layer_5_pieces [] (7 ∷ []))
    ≡ some (
        parser_parse_recv_command world "layer 5"
        >> pure (open_with [] [] ((7 ∷ [] ++ magic_code) ++ htonl (of_int (pos 0)))))
unfolding htonl after
receive_command-send_request_example =
    receive_command-send_request world stack stack refl refl (53 ∷ []) _ layer_5_pieces [] (7 ∷ [])
      ((λ e. omega (arith, e)), tt) (omega arith)
      (send_request-stream (53 ∷ []) [] [] (omega arith)) refl
      (omega arith, (omega arith, (omega arith, tt))) (omega arith, omega arith)

abbrev huge : List (List ℕ)
huge = (magic_code ++ 127 ∷ 255 ∷ 255 ∷ 255 ∷ []) ∷ []

receive_command-overflow_example :
    receive_command world stack stack (open_with huge [] []) ≡ some fault
unfolding htonl after
receive_command-overflow_example =
    receive_command-overflow world stack stack refl refl huge [] [] (omega arith, refl)
      (omega arith, refl)

-- Not the magic code, with a NUL and a size behind it.
abbrev other_magic : List (List ℕ)
other_magic = (0x55 ∷ 0x4C ∷ 0 ∷ 0x2F ∷ 0 ∷ 0 ∷ []) ∷ (0 ∷ 2 ∷ []) ∷ []

receive_command-refused_example :
    receive_command world stack stack (open_with other_magic [] [])
    ≡ some (Answer refused (open_with (after 4 other_magic) [] ([] ++ [])))
unfolding after
receive_command-refused_example =
    receive_command-refused world other_magic [] [] stack stack _ _ _ refl refl (
      without_magic (0x55 ∷ 0x4C ∷ 0 ∷ 0x2F ∷ []) refl (omega arith, refl) (λ e. grind arith)
        (inr (inr (inl refl))))

-- Nearly the magic code, without a NUL.
abbrev wrong_text : List (List ℕ)
wrong_text = (0x55 ∷ 0x4C ∷ 0x41 ∷ 0x2F ∷ []) ∷ []

no_nul : ¬ Among 0 (0x55 ∷ 0x4C ∷ 0x41 ∷ 0x2F ∷ [])
no_nul (inl e) = omega (arith, e)
no_nul (inr (inl e)) = omega (arith, e)
no_nul (inr (inr (inl e))) = omega (arith, e)
no_nul (inr (inr (inr (inl e)))) = omega (arith, e)
no_nul (inr (inr (inr (inr none_left)))) = none_left

other_text-run : receive_command world stack stack (open_with wrong_text [] []) ≡ some fault
unfolding after
other_text-run = receive_command-refused world wrong_text [] [] stack stack _ _ _ refl refl (
    with_other_text (0x55 ∷ 0x4C ∷ 0x41 ∷ 0x2F ∷ []) refl (omega arith, refl) (λ e. grind arith)
      no_nul)

abbrev file : Jansson Value
file = record (jansson_with (λ text. none)) { json_load_file = λ name. some layer_document }

abbrev answer : List (List ℕ)
answer = magic_code ∷ (0 ∷ 0 ∷ 0 ∷ 0 ∷ []) ∷ []

main-answered_example :
    main file
      (λ j. 53 ∷ [])
      little_endian
      stack
      (path (some "command.json") ∷ [])
      (open_with answer [] [])
    ≡ some (shown true (pos 0), open_with (after 4 (after 4 answer)) [] (stream (53 ∷ [])))
unfolding htonl after parse_client_options parse_option of_int
main-answered_example =
    main-answered file (λ j. 53 ∷ []) little_endian stack (path (some "command.json") ∷ [])
      "command.json" layer_document (pos 0) answer [] refl refl (omega arith) refl done refl
      (omega arith, omega arith)
