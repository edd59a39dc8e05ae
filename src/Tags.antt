-- ===== src/Tags.antt =====
-- server/tags.h and server/tags.c: the tags of the messages.
use lso_server.Base.{ℤ, pos}

abbrev pub request_rooms_tag : ℤ
request_rooms_tag = pos 2

abbrev pub request_rooms_accepted_tag : ℤ
request_rooms_accepted_tag = pos 3

abbrev pub join_room_request_tag : ℤ
join_room_request_tag = pos 7

abbrev pub join_room_accepted_tag : ℤ
join_room_accepted_tag = pos 8

abbrev pub join_room_refused_tag : ℤ
join_room_refused_tag = pos 9

abbrev pub join_room_notify_accepted_tag : ℤ
join_room_notify_accepted_tag = pos 10

abbrev pub message_received_tag : ℤ
message_received_tag = pos 11

abbrev pub send_message_tag : ℤ
send_message_tag = pos 12

abbrev pub leave_room_requested_tag : ℤ
leave_room_requested_tag = pos 14

abbrev pub leave_room_tag : ℤ
leave_room_tag = pos 15

abbrev pub sign_up_requested_tag : ℤ
sign_up_requested_tag = pos 20

abbrev pub sign_up_accepted_tag : ℤ
sign_up_accepted_tag = pos 21

abbrev pub sign_up_rejected_tag : ℤ
sign_up_rejected_tag = pos 22

abbrev pub sign_in_requested_tag : ℤ
sign_in_requested_tag = pos 30

abbrev pub sign_in_accepted_tag : ℤ
sign_in_accepted_tag = pos 31

abbrev pub sign_in_rejected_tag : ℤ
sign_in_rejected_tag = pos 32

abbrev pub room_create_requested_tag : ℤ
room_create_requested_tag = pos 40

abbrev pub room_create_accepted_tag : ℤ
room_create_accepted_tag = pos 41

abbrev pub room_closed_tag : ℤ
room_closed_tag = pos 43

abbrev pub join_room_requested_tag : ℤ
join_room_requested_tag = pos 50
