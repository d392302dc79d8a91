-- ===== src/Tests/Works.antt =====
-- Examples for the worker.
use avatars.Prelude.{◌≡◌, refl, ◌||◌, true, none, some, other, ok, err, Error, lookup, insert}
use avatars.Storage.Mem
use avatars.Processor.{ProcessedImage, process, decode_image, check_size, encode_png}
use avatars.Handler.{Bytes}
use avatars.Worker.{handle}
use avatars.Recording.Handling
use avatars.Tests.Env.{mem, codec, jpeg_file, service_with, message_of_ann}

ann_is_handled : Handling.error_of codec (service_with (ok jpeg_file)) message_of_ann mem ≡ none
unfolding handle process decode_image check_size encode_png Mem.update_avatar_status
    Mem.mark_avatar_ready Mem.made_ready lookup insert
ann_is_handled = refl

handle-success_example :
    (content : Bytes) × (p : ProcessedImage) × (e : Error) × (process codec content ≡ ok p)
    × (Handling.acts_of codec (service_with (ok jpeg_file)) message_of_ann mem
        ≡ Handling.success codec (service_with (ok jpeg_file)) message_of_ann mem content p e)
handle-success_example =
    Handling.handle-success codec (service_with (ok jpeg_file)) message_of_ann mem ann_is_handled

no_file_fails :
    Handling.error_of codec (service_with (err (other "no such key"))) message_of_ann mem
    ≡ some (other "no such key")
unfolding handle Mem.update_avatar_status lookup insert
no_file_fails = refl

handle-some_example :
    (Handling.reports_failure "ann"
        (other "no such key")
        (Handling.acts_of codec (service_with (err (other "no such key"))) message_of_ann mem)
      || Handling.never_started
          (Handling.acts_of codec (service_with (err (other "no such key"))) message_of_ann mem)
      || Handling.ready_refused
          (Handling.acts_of codec (service_with (err (other "no such key"))) message_of_ann mem))
    ≡ true
handle-some_example =
    Handling.handle-some codec (service_with (err (other "no such key"))) message_of_ann mem
      (other "no such key") no_file_fails
