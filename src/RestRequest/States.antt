-- ===== src/RestRequest/States.antt =====
-- src/fir/RestRequest.cpp: the tables of the machine that have an entry for each state, and the
-- sequences of actions.
use swirlyc.Common.{ℕ, List, [], ◌∷◌}

unfoldable pub json_actions : List ℕ
json_actions =
    0 ∷ 1 ∷ 0 ∷ 1 ∷ 2 ∷ 1 ∷ 4 ∷ 1 ∷ 5 ∷ 1 ∷ 7 ∷ 1 ∷ 8 ∷ 1 ∷ 10 ∷ 1 ∷ 11 ∷ 1 ∷ 13 ∷ 1 ∷ 14 ∷ 1 ∷ 16
    ∷ 1 ∷ 17 ∷ 1 ∷ 19 ∷ 1 ∷ 20 ∷ 1 ∷ 21 ∷ 1 ∷ 22 ∷ 1 ∷ 23 ∷ 1 ∷ 24 ∷ 1 ∷ 26 ∷ 1 ∷ 27 ∷ 1 ∷ 28 ∷ 1
    ∷ 29 ∷ 1 ∷ 30 ∷ 1 ∷ 31 ∷ 1 ∷ 32 ∷ 1 ∷ 33 ∷ 1 ∷ 34 ∷ 1 ∷ 35 ∷ 1 ∷ 36 ∷ 1 ∷ 37 ∷ 1 ∷ 38 ∷ 1 ∷ 39
    ∷ 1 ∷ 40 ∷ 1 ∷ 41 ∷ 1 ∷ 43 ∷ 2 ∷ 0 ∷ 1 ∷ 2 ∷ 0 ∷ 2 ∷ 2 ∷ 6 ∷ 3 ∷ 2 ∷ 9 ∷ 3 ∷ 2 ∷ 12 ∷ 3 ∷ 2 ∷ 15
    ∷ 3 ∷ 2 ∷ 18 ∷ 3 ∷ 2 ∷ 25 ∷ 3 ∷ 2 ∷ 42 ∷ 3 ∷ []

unfoldable pub json_key_offsets : List ℕ
json_key_offsets =
    0 ∷ 0 ∷ 4 ∷ 9 ∷ 25 ∷ 29 ∷ 31 ∷ 33 ∷ 35 ∷ 36 ∷ 40 ∷ 45 ∷ 47 ∷ 52 ∷ 57 ∷ 61 ∷ 61 ∷ 62 ∷ 63 ∷ 64
    ∷ 69 ∷ 71 ∷ 73 ∷ 74 ∷ 78 ∷ 83 ∷ 85 ∷ 90 ∷ 90 ∷ 91 ∷ 92 ∷ 93 ∷ 98 ∷ 100 ∷ 102 ∷ 104 ∷ 106 ∷ 108
    ∷ 110 ∷ 111 ∷ 115 ∷ 120 ∷ 122 ∷ 127 ∷ 127 ∷ 128 ∷ 129 ∷ 130 ∷ 135 ∷ 139 ∷ 141 ∷ 143 ∷ 145 ∷ 146
    ∷ 150 ∷ 155 ∷ 157 ∷ 162 ∷ 162 ∷ 163 ∷ 164 ∷ 165 ∷ 170 ∷ 172 ∷ 174 ∷ 176 ∷ 178 ∷ 180 ∷ 182 ∷ 184
    ∷ 186 ∷ 187 ∷ 191 ∷ 199 ∷ 201 ∷ 208 ∷ 209 ∷ 210 ∷ 211 ∷ 216 ∷ 218 ∷ 220 ∷ 222 ∷ 223 ∷ 227 ∷ 235
    ∷ 237 ∷ 244 ∷ 245 ∷ 246 ∷ 247 ∷ 252 ∷ 256 ∷ 258 ∷ 260 ∷ 262 ∷ 264 ∷ 266 ∷ 267 ∷ 271 ∷ 279 ∷ 281
    ∷ 288 ∷ 289 ∷ 290 ∷ 291 ∷ 296 ∷ 298 ∷ 300 ∷ 301 ∷ 305 ∷ 310 ∷ 312 ∷ 317 ∷ 317 ∷ 318 ∷ 319 ∷ 320
    ∷ 325 ∷ 329 ∷ 331 ∷ 332 ∷ 336 ∷ 341 ∷ 343 ∷ 348 ∷ 348 ∷ 349 ∷ 350 ∷ 351 ∷ 356 ∷ 358 ∷ 360 ∷ 361
    ∷ 365 ∷ 370 ∷ 374 ∷ 376 ∷ 378 ∷ 380 ∷ 382 ∷ 383 ∷ 388 ∷ 390 ∷ 392 ∷ 394 ∷ 396 ∷ 397 ∷ 402 ∷ 403
    ∷ 404 ∷ 405 ∷ 410 ∷ 416 ∷ 418 ∷ 420 ∷ 422 ∷ 424 ∷ 426 ∷ 428 ∷ 430 ∷ 431 ∷ 435 ∷ 443 ∷ 445 ∷ 452
    ∷ 453 ∷ 454 ∷ 455 ∷ 460 ∷ 462 ∷ 464 ∷ 465 ∷ 469 ∷ 474 ∷ 478 ∷ 480 ∷ 482 ∷ 483 ∷ 488 ∷ 490 ∷ 492
    ∷ 494 ∷ 495 ∷ 500 ∷ 501 ∷ 502 ∷ 503 ∷ 508 ∷ 510 ∷ 512 ∷ 514 ∷ 515 ∷ 519 ∷ 527 ∷ 529 ∷ 536 ∷ 537
    ∷ 538 ∷ 539 ∷ 544 ∷ 548 ∷ 550 ∷ 552 ∷ 554 ∷ 555 ∷ 559 ∷ 567 ∷ 569 ∷ 576 ∷ 577 ∷ 578 ∷ 579 ∷ 584
    ∷ 586 ∷ 588 ∷ 590 ∷ 592 ∷ 593 ∷ 597 ∷ 602 ∷ 604 ∷ 609 ∷ 609 ∷ 610 ∷ 611 ∷ 612 ∷ 617 ∷ []

unfoldable pub json_single_lengths : List ℕ
json_single_lengths =
    0 ∷ 2 ∷ 3 ∷ 16 ∷ 4 ∷ 2 ∷ 2 ∷ 2 ∷ 1 ∷ 2 ∷ 3 ∷ 2 ∷ 3 ∷ 3 ∷ 2 ∷ 0 ∷ 1 ∷ 1 ∷ 1 ∷ 3 ∷ 2 ∷ 2 ∷ 1 ∷ 2
    ∷ 3 ∷ 2 ∷ 3 ∷ 0 ∷ 1 ∷ 1 ∷ 1 ∷ 3 ∷ 2 ∷ 2 ∷ 2 ∷ 2 ∷ 2 ∷ 2 ∷ 1 ∷ 2 ∷ 3 ∷ 2 ∷ 3 ∷ 0 ∷ 1 ∷ 1 ∷ 1 ∷ 3
    ∷ 4 ∷ 2 ∷ 2 ∷ 2 ∷ 1 ∷ 2 ∷ 3 ∷ 2 ∷ 3 ∷ 0 ∷ 1 ∷ 1 ∷ 1 ∷ 3 ∷ 2 ∷ 2 ∷ 2 ∷ 2 ∷ 2 ∷ 2 ∷ 2 ∷ 2 ∷ 1 ∷ 2
    ∷ 4 ∷ 0 ∷ 3 ∷ 1 ∷ 1 ∷ 1 ∷ 3 ∷ 2 ∷ 2 ∷ 2 ∷ 1 ∷ 2 ∷ 4 ∷ 0 ∷ 3 ∷ 1 ∷ 1 ∷ 1 ∷ 3 ∷ 4 ∷ 2 ∷ 2 ∷ 2 ∷ 2
    ∷ 2 ∷ 1 ∷ 2 ∷ 4 ∷ 0 ∷ 3 ∷ 1 ∷ 1 ∷ 1 ∷ 3 ∷ 2 ∷ 2 ∷ 1 ∷ 2 ∷ 3 ∷ 2 ∷ 3 ∷ 0 ∷ 1 ∷ 1 ∷ 1 ∷ 3 ∷ 4 ∷ 2
    ∷ 1 ∷ 2 ∷ 3 ∷ 2 ∷ 3 ∷ 0 ∷ 1 ∷ 1 ∷ 1 ∷ 3 ∷ 2 ∷ 2 ∷ 1 ∷ 2 ∷ 3 ∷ 4 ∷ 2 ∷ 2 ∷ 2 ∷ 2 ∷ 1 ∷ 3 ∷ 2 ∷ 2
    ∷ 2 ∷ 2 ∷ 1 ∷ 3 ∷ 1 ∷ 1 ∷ 1 ∷ 3 ∷ 6 ∷ 2 ∷ 2 ∷ 2 ∷ 2 ∷ 2 ∷ 2 ∷ 2 ∷ 1 ∷ 2 ∷ 4 ∷ 0 ∷ 3 ∷ 1 ∷ 1 ∷ 1
    ∷ 3 ∷ 2 ∷ 2 ∷ 1 ∷ 2 ∷ 3 ∷ 4 ∷ 2 ∷ 2 ∷ 1 ∷ 3 ∷ 2 ∷ 2 ∷ 2 ∷ 1 ∷ 3 ∷ 1 ∷ 1 ∷ 1 ∷ 3 ∷ 2 ∷ 2 ∷ 2 ∷ 1
    ∷ 2 ∷ 4 ∷ 0 ∷ 3 ∷ 1 ∷ 1 ∷ 1 ∷ 3 ∷ 4 ∷ 2 ∷ 2 ∷ 2 ∷ 1 ∷ 2 ∷ 4 ∷ 0 ∷ 3 ∷ 1 ∷ 1 ∷ 1 ∷ 3 ∷ 2 ∷ 2 ∷ 2
    ∷ 2 ∷ 1 ∷ 2 ∷ 3 ∷ 2 ∷ 3 ∷ 0 ∷ 1 ∷ 1 ∷ 1 ∷ 3 ∷ 1 ∷ []

unfoldable pub json_range_lengths : List ℕ
json_range_lengths =
    0 ∷ 1 ∷ 1 ∷ 0 ∷ 0 ∷ 0 ∷ 0 ∷ 0 ∷ 0 ∷ 1 ∷ 1 ∷ 0 ∷ 1 ∷ 1 ∷ 1 ∷ 0 ∷ 0 ∷ 0 ∷ 0 ∷ 1 ∷ 0 ∷ 0 ∷ 0 ∷ 1
    ∷ 1 ∷ 0 ∷ 1 ∷ 0 ∷ 0 ∷ 0 ∷ 0 ∷ 1 ∷ 0 ∷ 0 ∷ 0 ∷ 0 ∷ 0 ∷ 0 ∷ 0 ∷ 1 ∷ 1 ∷ 0 ∷ 1 ∷ 0 ∷ 0 ∷ 0 ∷ 0 ∷ 1
    ∷ 0 ∷ 0 ∷ 0 ∷ 0 ∷ 0 ∷ 1 ∷ 1 ∷ 0 ∷ 1 ∷ 0 ∷ 0 ∷ 0 ∷ 0 ∷ 1 ∷ 0 ∷ 0 ∷ 0 ∷ 0 ∷ 0 ∷ 0 ∷ 0 ∷ 0 ∷ 0 ∷ 1
    ∷ 2 ∷ 1 ∷ 2 ∷ 0 ∷ 0 ∷ 0 ∷ 1 ∷ 0 ∷ 0 ∷ 0 ∷ 0 ∷ 1 ∷ 2 ∷ 1 ∷ 2 ∷ 0 ∷ 0 ∷ 0 ∷ 1 ∷ 0 ∷ 0 ∷ 0 ∷ 0 ∷ 0
    ∷ 0 ∷ 0 ∷ 1 ∷ 2 ∷ 1 ∷ 2 ∷ 0 ∷ 0 ∷ 0 ∷ 1 ∷ 0 ∷ 0 ∷ 0 ∷ 1 ∷ 1 ∷ 0 ∷ 1 ∷ 0 ∷ 0 ∷ 0 ∷ 0 ∷ 1 ∷ 0 ∷ 0
    ∷ 0 ∷ 1 ∷ 1 ∷ 0 ∷ 1 ∷ 0 ∷ 0 ∷ 0 ∷ 0 ∷ 1 ∷ 0 ∷ 0 ∷ 0 ∷ 1 ∷ 1 ∷ 0 ∷ 0 ∷ 0 ∷ 0 ∷ 0 ∷ 0 ∷ 1 ∷ 0 ∷ 0
    ∷ 0 ∷ 0 ∷ 0 ∷ 1 ∷ 0 ∷ 0 ∷ 0 ∷ 1 ∷ 0 ∷ 0 ∷ 0 ∷ 0 ∷ 0 ∷ 0 ∷ 0 ∷ 0 ∷ 0 ∷ 1 ∷ 2 ∷ 1 ∷ 2 ∷ 0 ∷ 0 ∷ 0
    ∷ 1 ∷ 0 ∷ 0 ∷ 0 ∷ 1 ∷ 1 ∷ 0 ∷ 0 ∷ 0 ∷ 0 ∷ 1 ∷ 0 ∷ 0 ∷ 0 ∷ 0 ∷ 1 ∷ 0 ∷ 0 ∷ 0 ∷ 1 ∷ 0 ∷ 0 ∷ 0 ∷ 0
    ∷ 1 ∷ 2 ∷ 1 ∷ 2 ∷ 0 ∷ 0 ∷ 0 ∷ 1 ∷ 0 ∷ 0 ∷ 0 ∷ 0 ∷ 0 ∷ 1 ∷ 2 ∷ 1 ∷ 2 ∷ 0 ∷ 0 ∷ 0 ∷ 1 ∷ 0 ∷ 0 ∷ 0
    ∷ 0 ∷ 0 ∷ 1 ∷ 1 ∷ 0 ∷ 1 ∷ 0 ∷ 0 ∷ 0 ∷ 0 ∷ 1 ∷ 1 ∷ []

unfoldable pub json_index_offsets : List ℕ
json_index_offsets =
    0 ∷ 0 ∷ 4 ∷ 9 ∷ 26 ∷ 31 ∷ 34 ∷ 37 ∷ 40 ∷ 42 ∷ 46 ∷ 51 ∷ 54 ∷ 59 ∷ 64 ∷ 68 ∷ 69 ∷ 71 ∷ 73 ∷ 75
    ∷ 80 ∷ 83 ∷ 86 ∷ 88 ∷ 92 ∷ 97 ∷ 100 ∷ 105 ∷ 106 ∷ 108 ∷ 110 ∷ 112 ∷ 117 ∷ 120 ∷ 123 ∷ 126 ∷ 129
    ∷ 132 ∷ 135 ∷ 137 ∷ 141 ∷ 146 ∷ 149 ∷ 154 ∷ 155 ∷ 157 ∷ 159 ∷ 161 ∷ 166 ∷ 171 ∷ 174 ∷ 177 ∷ 180
    ∷ 182 ∷ 186 ∷ 191 ∷ 194 ∷ 199 ∷ 200 ∷ 202 ∷ 204 ∷ 206 ∷ 211 ∷ 214 ∷ 217 ∷ 220 ∷ 223 ∷ 226 ∷ 229
    ∷ 232 ∷ 235 ∷ 237 ∷ 241 ∷ 248 ∷ 250 ∷ 256 ∷ 258 ∷ 260 ∷ 262 ∷ 267 ∷ 270 ∷ 273 ∷ 276 ∷ 278 ∷ 282
    ∷ 289 ∷ 291 ∷ 297 ∷ 299 ∷ 301 ∷ 303 ∷ 308 ∷ 313 ∷ 316 ∷ 319 ∷ 322 ∷ 325 ∷ 328 ∷ 330 ∷ 334 ∷ 341
    ∷ 343 ∷ 349 ∷ 351 ∷ 353 ∷ 355 ∷ 360 ∷ 363 ∷ 366 ∷ 368 ∷ 372 ∷ 377 ∷ 380 ∷ 385 ∷ 386 ∷ 388 ∷ 390
    ∷ 392 ∷ 397 ∷ 402 ∷ 405 ∷ 407 ∷ 411 ∷ 416 ∷ 419 ∷ 424 ∷ 425 ∷ 427 ∷ 429 ∷ 431 ∷ 436 ∷ 439 ∷ 442
    ∷ 444 ∷ 448 ∷ 453 ∷ 458 ∷ 461 ∷ 464 ∷ 467 ∷ 470 ∷ 472 ∷ 477 ∷ 480 ∷ 483 ∷ 486 ∷ 489 ∷ 491 ∷ 496
    ∷ 498 ∷ 500 ∷ 502 ∷ 507 ∷ 514 ∷ 517 ∷ 520 ∷ 523 ∷ 526 ∷ 529 ∷ 532 ∷ 535 ∷ 537 ∷ 541 ∷ 548 ∷ 550
    ∷ 556 ∷ 558 ∷ 560 ∷ 562 ∷ 567 ∷ 570 ∷ 573 ∷ 575 ∷ 579 ∷ 584 ∷ 589 ∷ 592 ∷ 595 ∷ 597 ∷ 602 ∷ 605
    ∷ 608 ∷ 611 ∷ 613 ∷ 618 ∷ 620 ∷ 622 ∷ 624 ∷ 629 ∷ 632 ∷ 635 ∷ 638 ∷ 640 ∷ 644 ∷ 651 ∷ 653 ∷ 659
    ∷ 661 ∷ 663 ∷ 665 ∷ 670 ∷ 675 ∷ 678 ∷ 681 ∷ 684 ∷ 686 ∷ 690 ∷ 697 ∷ 699 ∷ 705 ∷ 707 ∷ 709 ∷ 711
    ∷ 716 ∷ 719 ∷ 722 ∷ 725 ∷ 728 ∷ 730 ∷ 734 ∷ 739 ∷ 742 ∷ 747 ∷ 748 ∷ 750 ∷ 752 ∷ 754 ∷ 759 ∷ []
