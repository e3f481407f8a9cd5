-- ===== src/Lib.antt =====
-- A model of the Tetris client in client/tetris: the game on the board, the keys, the rooms, and the
-- packets that it exchanges with the server.
--
-- The parts, and how they interact. The receive thread of net/network.py puts the bytes that arrive
-- into the buffer of net/packet_manager.py, which cuts them into packets (net/packet_structs.py, by
-- the numbers of net/packet_types.py and net/packet_registry.py) and queues them. The game session
-- (game/tetris_session.py) hands the packets of a game to the board (game/tetris_board.py), whose
-- pieces are those of game/tetromino.py. The keys become moves (game/tetris_controller.py), which
-- are sent as packets of net/packet_builder.py. The server decides: the client moves, fixes and
-- clears only what the server tells it to.
--
-- The paths below are those of client/tetris, but for the signup server's.
--
-- Where each part is modelled:
--   Python            what the code uses of Python: exceptions, indices, `struct`, UTF-8, and
--                     the interface of the floating-point numbers
--   Game/Tetromino    game/tetromino.py, and SHAPES of config/define.py
--   Game/Combo        animation/combo_animation.py
--   Game/Board        game/tetris_board.py; Landing is make_landing_tetromino, and Gameover is
--                     find_anim_start_line and animate_gameover
--   Game/Controller   game/tetris_controller.py
--   Game/Session      game/tetris_session.py; Events has the keys and the buttons
--   Net/Structs       net/packet_structs.py: a class is a schema, Recv and Send list them
--   Net/Registry      net/packet_types.py and net/packet_registry.py
--   Net/Builder       net/packet_builder.py
--   Net/Manager       net/packet_manager.py; Stream has the receive loop of net/network.py
--   States/Fade       states/base_state.py
--   States/Multi      states/multi_play_state.py, which hands the packets of a game to the sessions
--                     of its players; Events has the mouse and the frames
--   States/Single     states/single_play_state.py
--   States/Errors     net/error_types.py
--   States/Login      states/login_state.py, with the boxes and buttons of Ui
--   States/Lobby      states/lobby_state.py: Windows has handle_event as a whole and handle_packet;
--                     what a widget answers to an event comes with the event
--   States/Ranking    states/ranking_state.py
--   Main              main/game_loop.py, over the interface that all states have
--   Net/Worker        net/network.py: the connection and send_packet
--   Ui/InputBox       ui/inputbox.py
--   Ui/Toolkit        pygame's rectangles and the floating-point numbers, which are parameters
--   Ui/Scroll         ui/scroll_window_base.py
--   Ui/RoomList       ui/room_list.py and ui/room_info.py; Joining is what the lobby reads there
--   Ui/ChatWindow     ui/chat_window.py: how a message is cut into lines, and the lines shown
--   Ui/UserList       the users of ui/user_list.py and the packets of ui/user_taps.py
--   Ui/UserWindow     the rows of ui/user_list.py, and ui/user_info.py
--   Ui/UserTabs       the events of ui/user_taps.py
--   Ui/AdjustSound    ui/adjust_sound.py
--   Ui/Settings       ui/setting_sound.py, ui/setting_window.py and the volumes of
--                     resources/sounds.py
--   Ui/CreateRoom     ui/create_room_window.py
--   Ui/FastMatching   ui/fast_matching_window.py
--   Ui/Button         ui/button.py, ui/toggle_button.py and ui/popupbox.py
--   Signup            Signup_server (app.py and models.py): the web server that makes the accounts
--                     with which the client logs in; Checks has the forms of the fields, Table the
--                     users, Handlers the routes
-- An object is a record of its attributes, a method is a function that gives the new record, and a
-- method that may raise gives a result beside it, with what was written before the exception. The
-- names are the source's.
--
-- Bounds. `make_landing_tetromino` has fuel for 30 rows: a piece that goes down at all has its origin
-- at most three rows above the 25 of the grid. `process_packet` has fuel for one round more
-- than the buffer has bytes, since a round takes at least three. The loops over a message have fuel
-- for one round more than it has characters, since a round takes at least one. Bytes are numbers,
-- and `struct.pack` refuses what does not fit the width of its code.
--
-- Not modelled: drawing, sounds but for the list of those played, most of the layout, files,
-- sockets and threads, which are pygame's or the system's. bcrypt, and how the database compares texts
-- and refuses those too long for a column, are parameters of the signup server, for a database that
-- cuts no text off. The classes of characters beyond ASCII are a parameter of all that reads them.
-- The queue of the packet manager is the list of what was put, as a full queue only
-- delays the put. The other widgets (ui: labels, rectangles, a profile), the animations that only
-- draw and the C++ server are not part of the model. Times are whole milliseconds, where the main
-- loop's are floats.
pub mod Base
pub mod Python
pub mod Game
pub mod Net
pub mod Ui
pub mod States
pub mod Signup
pub mod Main
