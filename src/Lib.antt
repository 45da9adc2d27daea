-- ===== src/Lib.antt =====
-- uhmi-ivi-wm, a window manager for ivi compositors that is driven by JSON commands.
--
-- The program. app/main.c waits for clients and for notifications. app/comm_receiver.c exchanges
-- messages with a client. app/comm_parser.c reads a message as a JSON command, keeps a tree of
-- screens, layers and surfaces and a list of surface properties, and changes both. Each change is
-- sent to the compositor through app/ilm_control_wrapper.c, which calls libilm, and which reports
-- new and configured surfaces back to the parser.
--
-- The files, by the code that they are about:
--   Base, Exec: no code; shared names, and functions that return, exit or fault, on a state.
--   InsertOrder, ElementList: INSERT_ORDER, insert_info_t and the queue operations of
--     app/comm_parser.c (`pop_list_element`, `get_list_element`, `insert_list_element`).
--   Properties, Tree, State: list_element_t and the properties of app/comm_parser.h, and the two
--     static lists of app/comm_parser.c (`get_layer`, `pop_layer`).
--   Store: the functions of app/comm_parser.c from `add_surface_properties` to
--     `add_layers_to_screen`, and `remove_all`.
--   Jansson, Ilm, Env: what is not in the repository, as parameters.
--   Wrapper: app/ilm_control_wrapper.c, the functions `wrap_ilm_*`.
--   Json: app/comm_parser.c, `get_json_*` and `parse_*` of one value or of properties.
--   Decide: `decide_add_or_update_layer` and `decide_add_or_update_surface`.
--   Commands: the handlers `parse_add_*`, `parse_remove_*` and `parse_modify_*`.
--   Init: `init_default_config`, `parse_all_in_screen`, `parse_init_json_config` and
--     `parse_init_screen_command`.
--   Parser: the functions of app/comm_parser.h, and `wrap_ilm_set_surfaceAddNotification`.
--   Receiver: the functions of app/comm_receiver.c on a connected socket, for both ends.
--   Sockets: its functions that make a socket, `create_server_socket` and the like.
--   Options: `parse_option` and `usage` of app/main.c, which example/wmsendcmd.c has again.
--   Request: what `wait_event_loop` of app/main.c takes from a client and answers it.
--   Client: example/wmsendcmd.c.
--   EventLoop: the callbacks of app/ilm_control_wrapper.c, and `main` and `wait_event_loop` of
--     app/main.c as a step relation.
--   Invariant, Safety, Exits: theorems on all of app/comm_parser.c, on where the process ends and on
--     the commits to libilm.
--     Other theorems stand in child modules of the file that they are about.
--   Scene: the order of the layers on each screen and of the surfaces on each layer; Scene/Spec says
--     from the JSON alone what each command does to it, which app/comm_parser.c refines.
--   Tests: a JSON library, a compositor and runs that can be computed with.
--
-- How the state corresponds. `screens` and `surface_properties` are `screen_head` and
-- `surface_properties_head`; `calls` records every call of libilm, newest first, since that is all
-- that the compositor sees; `locals` counts the uses of properties on the stack that were never set,
-- whose bytes the parameter Env gives. A pointer to an element is the element's id, which is enough
-- since no id stands twice. A fault is undefined behaviour: a read through NULL, of an array that was
-- never filled in, or past its end, a write past a buffer, or an int that overflows. An exit is
-- `wrap_ilm_exit`.
--
-- Parameters. Jansson gives the functions of the JSON library on a type of values. A bound on texts is
-- one on the texts of one document, as far as the code reads it. Ilm gives the results of libilm's
-- calls, each depending on all calls before it, so that the compositor and its applications may do
-- anything between two calls.
--
-- A connection is what will come in at one end, piece by piece, since a stream may be cut anywhere,
-- which sends will fail, and what was sent. A function that would wait for ever in `recv` gives
-- `none`. Env also gives the text that bytes make, and `json_dumps` is an argument of the client.
--
-- Bounds. Loops run over lists and take no fuel; the loop on `recv` runs over the pieces. A C
-- unsigned int is a number with its wrap-around written out: the conversion of JSON integers, the
-- reference count, the bytes read and the size of a body, which becomes an int. Ids are compared as
-- unsigned numbers.
--
-- Not modelled: of app/comm_receiver.c the address of the socket; of app/main.c which descriptors
-- `poll` reports in one round, since any order of the steps is allowed, and a failing `pipe`;
-- texts on stderr, but for those whose printing reads past an array, `print_nofification_mask` and
-- `debug_print_all_list`; failing allocations, which the code does not check; a failing read of
-- the pipe; the width of `t_ilm_bool`.
pub mod Base
pub mod Exec
pub mod InsertOrder
pub mod ElementList
pub mod Properties
pub mod Ilm
pub mod Tree
pub mod State
pub mod Wrapper
pub mod Jansson
pub mod Json
pub mod Store
pub mod Env
pub mod Decide
pub mod Commands
pub mod Init
pub mod Parser
pub mod Receiver
pub mod Sockets
pub mod Options
pub mod Request
pub mod Client
pub mod EventLoop
pub mod Invariant
pub mod Safety
pub mod Exits
pub mod Scene
pub mod Tests
