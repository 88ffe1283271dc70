-- ===== src/ChatGuard/Reads.antt =====
-- src/shared/guards/chat-network.guard.ts, lines 33 to 121: finding the room of a request only reads.
use nestjs_ex.ChatGuard.{
  HttpRequest, RequestId, get_message_by_id, get_room_id, given_id, room_of_body_message,
  room_of_member_request, room_of_message, room_of_message_request,
}
use nestjs_ex.Prelude.{Option, is_some, none, some, text_eq, ℕ, ◌&&◌}
use nestjs_ex.ChatHelper.Frame.{SameWorld}
use nestjs_ex.World.{World}
use nestjs_ex.World.Laws.{At, At-bind, At-gets, At-gets-bind, At-if, At-need, At-pure}

get_message_by_id-At : {w : World} (id : ℕ) → At SameWorld w (get_message_by_id id)
unfolding get_message_by_id
get_message_by_id-At id = At-gets-bind _ _ (At-need _ _)

room_of_message-At : {w : World} (id : RequestId) → At SameWorld w (room_of_message id)
unfolding room_of_message
room_of_message-At id = At-bind _ _ (get_message_by_id-At _) λ m u. At-pure _

room_of_message_request-At :
    {w : World} (req : HttpRequest) (id : Option RequestId)
    → At SameWorld w (room_of_message_request req id)
unfolding room_of_message_request
room_of_message_request-At req none = At-pure _
room_of_message_request-At req (some id) = room_of_message-At id

room_of_member_request-At :
    {w : World} (req : HttpRequest) (id : Option RequestId)
    → At SameWorld w (room_of_member_request req id)
unfolding room_of_member_request
room_of_member_request-At req none = At-pure _
room_of_member_request-At req (some id) = At-if req.is_put (λ _. At-pure _) (λ _. At-gets _)

room_of_body_message-At :
    {w : World} (id : Option RequestId) → At SameWorld w (room_of_body_message id)
unfolding room_of_body_message
room_of_body_message-At none = At-pure _
room_of_body_message-At (some id) = room_of_message-At id

pub get_room_id-At : {w : World} (req : HttpRequest) → At SameWorld w (get_room_id req)
unfolding get_room_id
get_room_id-At req =
    At-if (req.url_includes "/chat-room/") (λ _. At-pure _)
      λ _.
        At-if (req.url_includes "/message/") (λ _. room_of_message_request-At req _)
          λ _.
            At-if (req.url_includes "/member-in-room/") (λ _. room_of_member_request-At req _)
              λ _.
                At-if
                  (req.url_includes "/remove-message/" && is_some (given_id req.body_message_id))
                  (λ _. room_of_body_message-At _)
                  λ _.
                    At-if
                      (req.url_includes "/spam-report/" && is_some (given_id req.body_message_id))
                      (λ _. room_of_body_message-At _)
                      λ _. At-if (req.url_includes "/room_key/") (λ _. At-pure _) (λ _. At-pure _)
